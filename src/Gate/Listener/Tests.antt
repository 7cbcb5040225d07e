-- ===== src/Gate/Listener/Tests.antt =====
-- Runs of the scanners of the listener gate.
use asm_flow.Prelude.{ℕ, Bool, false, [], ◌∷◌, ◌≡◌, refl, codes}
use asm_flow.Gate.Provider.Contract.{without_comma}
use asm_flow.Gate.Pattern.{pattern_runs}
use asm_flow.Gate.Listener.{enclosed, shared_libraries}
use asm_flow.Gate.Listener.Leniency.{path_parts, root_of, path_in, not_disabled, set_values}
use asm_flow.Gate.Listener.Shim.{strip_slashes, conditionals, catalogue_messages}

abbrev no_letter : ℕ → Bool
no_letter c = false

unfoldable scans_run : Unit {0}
unfolding pattern_runs enclosed shared_libraries without_comma path_parts root_of path_in
    not_disabled set_values strip_slashes conditionals catalogue_messages
scans_run = tt

libraries_run :
    shared_libraries no_letter (codes "x Shared library: [libc.so.6]\nShared library: []")
    ≡ codes "libc.so.6" ∷ []
unfolding scans_run
libraries_run = refl

path_run :
    path_in (codes "/opt//llhttp/./include/") "llhttp.h" ≡ codes "/opt/llhttp/include/llhttp.h"
unfolding scans_run
path_run = refl

values_run :
    set_values no_letter
      (codes "llhttp_set_lenient_headers(parser, 1 ); llhttp_set_lenient_(parser, 0)")
    ≡ codes "1 " ∷ []
unfolding scans_run
values_run = refl

slashes_run : strip_slashes false (codes "a//b//c\nd/e") ≡ codes "a\nd/e"
unfolding scans_run
slashes_run = refl

conditionals_run : conditionals no_letter (codes "if(a) elif (b) if  (c)") ≡ 2
unfolding scans_run
conditionals_run = refl

messages_run :
    catalogue_messages no_letter (codes "m_a: db \"one\", 0\n m_b: db \"two\"\nm_c:  db \"\"")
    ≡ codes "one" ∷ [] ∷ []
unfolding scans_run
messages_run = refl
