-- ===== src/Config/Path.antt =====
-- `_check_path`: the allowlisted `${NAME}` grammar.
pub mod Total
pub mod Expansion
use asm_flow.Prelude.{
  ℕ, zero, suc, ◌+◌, Bool, true, false, ◌&&◌, ◌||◌, not, Option, none, some, List, [], ◌∷◌, ◌++◌,
  Text, codes, eq_text, mem_text, starts_with, ◌==◌, if◌then◌else◌, length, take, drop,
}
use asm_flow.Str.{find, split}
use asm_flow.Config.{
  Result, ok, reject, crash, ◌>>=◌, ◌>>◌, require, forbidden_expansion, not_absolute, climbs,
}

unfoldable pub allowed_xdg : List Text
unfolding codes
allowed_xdg =
    codes "HOME"
    ∷ codes "XDG_CONFIG_HOME"
    ∷ codes "XDG_STATE_HOME"
    ∷ codes "XDG_DATA_HOME"
    ∷ codes "XDG_RUNTIME_DIR"
    ∷ []

-- ch in "`\n\r\0"
unfoldable pub is_forbidden : ℕ → Bool
is_forbidden c = c == b'`' || (c == b'\n' || (c == b'\r' || c == 0))

-- The loop, on what stands from `value[i]` on. `fuel` bounds its rounds; it crashes without.
unfoldable pub expand : ℕ → Text → Text → Text → Result Text
expand fuel p out [] = ok out
expand zero p out (c ∷ s) = crash
expand (suc fuel) p out (c ∷ s) =
    let kept = expand fuel p (out ++ c ∷ []) s in
    if is_forbidden c
    then reject p forbidden_expansion
    else if not (c == b'$')
    then kept
    else if not (starts_with (codes "{") s)
    then reject p forbidden_expansion
    else elim (find (codes "}") (drop 1 s)) [
      | none ↦ reject p forbidden_expansion
      | some close ↦
          let name = take close (drop 1 s) in
          let next = expand fuel p (out ++ codes "/expanded") (drop (suc close) (drop 1 s)) in
          if eq_text name [] || not (mem_text name allowed_xdg)
          then reject p forbidden_expansion
          else next
    ]

unfoldable pub check_path : Text → Text → Result (Unit {0})
check_path value p = do
  expanded ← expand (length value) p [] value
  require (starts_with (codes "/") expanded) p not_absolute
  require (not (mem_text (codes "..") (split b'/' expanded))) p climbs
