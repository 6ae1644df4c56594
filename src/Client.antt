-- ===== src/Client.antt =====
-- The command line client of src/bin/galynx.rs: how it reads the role a new user is to have. The
-- modules below have its requests.
pub mod Requests
pub mod Renewal
use mathlib.Core.Path.{◌≡◌, refl}
use mathlib.Core.Logic.{◌⊎◌, ◌↔◌, ◌≢◌, inl, inr}
use mathlib.Core.Bool.{true, false}
use native.Mathlib.Omega.{arith}
use galynx_api.Common.{◌==◌, nat_eq, text_eq, text_beq, text_beq_iff, if◌then◌else◌}
use galynx_api.Text.{Str, text, trim, to_ascii_lowercase, text_tests}
use galynx_api.Errors.{ok}
use galynx_api.Auth.Context.{WorkspaceRole, owner, admin, member, parse_role, role_to_storage}

-- `normalize_user_role`: the message of an error, or the word that is sent to the server
unfoldable pub normalize_user_role : Str → Str ⊎ Str
normalize_user_role value =
    let v = to_ascii_lowercase (trim value) in
    if v == text "admin"
    then inr (text "admin")
    else if v == text "member"
    then inr (text "member")
    else if v == text "owner"
    then inr (text "owner")
    else inl (text "invalid role: expected owner|admin|member")

words :
    (text_beq (text "owner") (text "admin") ≡ false)
    × (text_beq (text "owner") (text "member") ≡ false)
    × (text_beq (text "admin") (text "member") ≡ false)
unfolding text_tests
words = (refl, refl, refl)

-- Text that is one word is not another.
one_word :
    (s t value : Str) → text_beq s t ≡ false → text_beq value s ≡ true → text_beq value t ≡ false
one_word s t value apart h =
    ground (arith, text_beq_iff value s, text_beq_iff value t, text_beq_iff s t)

-- The three words differ, and text is one of them at most.
words_differ :
    (v : Str)
    → ((text "owner" ≢ text "admin") × (text "owner" ≢ text "member"))
      × (text "admin" ≢ text "member")
      × (text_beq v (text "owner") ≡ true
          → (text_beq v (text "admin") ≡ false) × (text_beq v (text "member") ≡ false))
words_differ v = (
  (
    λ h. ground (arith, text_beq_iff (text "owner") (text "admin"), words),
    λ h. ground (arith, text_beq_iff (text "owner") (text "member"), words),
  ),
  λ h. ground (arith, text_beq_iff (text "admin") (text "member"), words),
  λ h. (
    one_word (text "owner") (text "admin") v words.0 h,
    one_word (text "owner") (text "member") v words.1 h,
  ),
)

-- The client sends the stored spelling of a role exactly where the server's `parse_role` reads
-- the same value as that role.
pub normalize_user_role-role_to_storage :
    (value : Str) (r : WorkspaceRole)
    → (normalize_user_role value ≡ inr (role_to_storage r)) ↔ (parse_role value ≡ ok r)
unfolding normalize_user_role parse_role role_to_storage
normalize_user_role-role_to_storage value owner =
    ground (arith, words_differ (to_ascii_lowercase (trim value)))
normalize_user_role-role_to_storage value admin =
    ground (arith, words_differ (to_ascii_lowercase (trim value)))
normalize_user_role-role_to_storage value member =
    ground (arith, words_differ (to_ascii_lowercase (trim value)))
