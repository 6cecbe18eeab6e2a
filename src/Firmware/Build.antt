-- ===== src/Firmware/Build.antt =====
-- firmware-c3/build.rs and firmware-s3/build.rs: the build script, which the linker also calls when it
-- fails, to explain why.
use Prim.Native.String.{String}
use lamella.Base.{
  ℕ, Bool, false, if◌then◌else◌, ◌||◌, Option, none, some, List, [], ◌∷◌, ◌≡◌, ◌↔◌, refl, length,
  arith, Bool-cases, inl, inr,
}
use text.Mathlib.Text.{◌==◌ as str_eq, starts_with}

-- The explanations on stderr.
pub data Hint : Type 0 where
  defmt_not_found : Hint
  linkall_missing : Hint
  no_scheduler : Hint
  embedded_test_not_found : Hint
  no_alloc : Hint

-- How `linker_be_nice` ends: it returns, with the directive printed, or exits, or an index is out of
-- bounds.
pub data Ending : Type 0 where
  returned : Ending
  exited : (code : ℕ) → Option Hint → Ending
  panicked : Ending

abbrev pub alloc_symbols : List String
alloc_symbols =
    "free" ∷ "malloc" ∷ "calloc" ∷ "get_free_internal_heap_size" ∷ "malloc_internal"
    ∷ "realloc_internal" ∷ "calloc_internal" ∷ "free_internal" ∷ []

abbrev pub one_of : String → List String → Bool
one_of what [] = false
one_of what (s ∷ rest) = str_eq what s || one_of what rest

-- `match what.as_str()`.
unfoldable pub hint_for : String → Option Hint
hint_for what =
    if starts_with what "_defmt_"
    then some defmt_not_found
    else if str_eq what "_stack_start"
    then some linkall_missing
    else if starts_with what "esp_rtos_"
    then some no_scheduler
    else if str_eq what "embedded_test_linker_file_not_added_to_rustflags"
    then some embedded_test_not_found
    else if one_of what alloc_symbols
    then some no_alloc
    else none

abbrev pub explain : String → String → Ending
explain kind what =
    if str_eq kind "undefined-symbol" then exited 0 (hint_for what) else exited 1 none

-- `args[0]` is the program.
unfoldable pub linker_be_nice : List String → Ending
unfolding hint_for
linker_be_nice [] = returned
linker_be_nice (program ∷ []) = returned
linker_be_nice (program ∷ kind ∷ []) = panicked
linker_be_nice (program ∷ kind ∷ what ∷ rest) = explain kind what

explain_calm : (kind what : String) → explain kind what ≡ panicked → ⊥
explain_calm kind what h = elim (Bool-cases (str_eq kind "undefined-symbol")) [
  | inl e ↦ cc
  | inr e ↦ cc
]

-- The script panics exactly if the list of its arguments, with the program, has two members.
pub linker_be_nice_iff : (args : List String) → (linker_be_nice args ≡ panicked) ↔ (length args ≡ 2)
unfolding linker_be_nice
linker_be_nice_iff [] = ((λ h. cc), (λ h. absurd (omega (arith, h))))
linker_be_nice_iff (program ∷ []) = ((λ h. cc), (λ h. absurd (omega (arith, h))))
linker_be_nice_iff (program ∷ kind ∷ []) = ((λ h. refl), (λ h. refl))
linker_be_nice_iff (program ∷ kind ∷ what ∷ rest) =
    ((λ h. absurd (explain_calm kind what h)), (λ h. absurd (omega (arith, h))))
