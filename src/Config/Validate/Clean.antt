-- ===== src/Config/Validate/Clean.antt =====
-- An accepted document holds no plaintext credential.
use asm_flow.Prelude.{Text, ◌≡◌, []}
use asm_flow.Json.{Json}
use asm_flow.Config.Auth.Swept.{HasKey, IsCredential, sweep_iff}
use asm_flow.Config.Validate.{accepts, accepted}
use asm_flow.Config.Validate.Passed.{Passed, accepts-Passed}

-- No object of an accepted document, at any depth, has a key that is the name of a credential.
pub accepts-HasKey :
    (document : Json)
    → accepts document ≡ accepted
    → (k : Text) → HasKey k document
    → ¬ (IsCredential k)
accepts-HasKey document e k h c =
    (sweep_iff document []).0 (Passed.swept (accepts-Passed document e)) (k, h, c)
