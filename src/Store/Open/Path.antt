-- ===== src/Store/Open/Path.antt =====
-- crates/igra/src/store.rs: the name of a network as a path component.
use igra_foundry_sdk.Prelude.{ℕ, ◌≡◌, ◌≢◌, refl, Bool, true, ◌||◌, [], ◌∷◌, map, arith, all, ◌==◌}
use igra_foundry_sdk.Prelude.Text.{Text, trim, is_alphanumeric}
use igra_foundry_sdk.Store.Open.{sanitize_char, or_fallback, sanitize_component}

-- A character of a safe component is no slash and no dot.
abbrev is_safe : ℕ → Bool
is_safe c = is_alphanumeric c || c == b'-' || c == b'_'

abbrev pub IsComponent : Text → Type 0
IsComponent s = (s ≢ []) × (all is_safe s ≡ true)

sanitize_char-safe : (c : ℕ) → is_safe (sanitize_char c) ≡ true
unfolding sanitize_char is_alphanumeric
sanitize_char-safe c = ground arith

all-safe : (s : Text) → all is_safe (map sanitize_char s) ≡ true
all-safe [] = refl
all-safe (c ∷ s) = ground (arith, sanitize_char-safe c, all-safe s)

or_fallback-IsComponent :
    (s fallback : Text)
    → all is_safe s ≡ true
    → IsComponent fallback
    → IsComponent (or_fallback s fallback)
unfolding or_fallback
or_fallback-IsComponent [] fallback h f = f
or_fallback-IsComponent (c ∷ s) fallback h f = ((λ e. cc), h)

-- Whatever the configured network is, its sanitized form is not empty and has only ASCII letters and
-- digits, `-` and `_`, so it is one path component, when the fallback is one.
pub sanitize-IsComponent :
    (value fallback : Text) → IsComponent fallback → IsComponent (sanitize_component value fallback)
unfolding sanitize_component
sanitize-IsComponent value fallback f =
    or_fallback-IsComponent (map sanitize_char (trim value)) fallback (all-safe (trim value)) f
