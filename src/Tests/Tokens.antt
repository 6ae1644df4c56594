-- ===== src/Tests/Tokens.antt =====
-- A login and the reading of its access token, with tokens that hold their claims in the open.
use Prim.Native.Nat.{zero, suc}
use mathlib.Core.Path.{◌≡◌, refl}
use mathlib.Core.Logic.{inr}
use mathlib.Core.Bool.{true}
use mathlib.Core.Option.{none, some}
use mathlib.Core.List.{[], ◌∷◌}
use native.Mathlib.Omega.{arith}
use galynx_api.Common.{ℤ, pos, negsuc, ◌==◌, text_eq, lookup, text_beq}
use galynx_api.Text.{Str, text, text_tests}
use galynx_api.Errors.{ok}
use galynx_api.Auth.Context.{WorkspaceRole, owner, admin, member}
use galynx_api.Auth.Service.{Libraries, AccessClaims, AuthTokensResponse, login}
use galynx_api.Auth.AccessToken.{ReadBack, IsAuthenticated, login-authenticates}
use galynx_api.Storage.{Uuid}
use galynx_api.Tests.Data.{store, auth, draw, config}

-- A text before another: each character plus one, and a zero at the end.
write : Str → Str → Str
write [] rest = 0 ∷ rest
write (c ∷ s) rest = suc c ∷ write s rest

read : Str → Str × Str
read [] = ([], [])
read (zero ∷ t) = ([], t)
read (suc c ∷ t) = let (s, rest) = read t in (c ∷ s, rest)

read-write : (s rest : Str) → read (write s rest) ≡ (s, rest)
unfolding read write
read-write [] rest = refl
read-write (c ∷ s) rest = rw (read-write s rest) refl

write_ℤ : ℤ → Str → Str
write_ℤ (pos n) rest = 0 ∷ n ∷ rest
write_ℤ (negsuc n) rest = 1 ∷ n ∷ rest

write_role : WorkspaceRole → Str → Str
write_role owner rest = 0 ∷ rest
write_role admin rest = 1 ∷ rest
write_role member rest = 2 ∷ rest

read_ℤ : Str → ℤ × Str
read_ℤ (zero ∷ n ∷ rest) = (pos n, rest)
read_ℤ (suc k ∷ n ∷ rest) = (negsuc n, rest)
read_ℤ _ = (pos 0, [])

read_role : Str → WorkspaceRole × Str
read_role (zero ∷ rest) = (owner, rest)
read_role (suc zero ∷ rest) = (admin, rest)
read_role (suc (suc k) ∷ rest) = (member, rest)
read_role [] = (member, [])

read-write_ℤ : (i : ℤ) (rest : Str) → read_ℤ (write_ℤ i rest) ≡ (i, rest)
unfolding read_ℤ write_ℤ
read-write_ℤ (pos n) rest = refl
read-write_ℤ (negsuc n) rest = refl

read-write_role : (r : WorkspaceRole) (rest : Str) → read_role (write_role r rest) ≡ (r, rest)
unfolding read_role write_role
read-write_role owner rest = refl
read-write_role admin rest = refl
read-write_role member rest = refl

write_claims : AccessClaims → Str
write_claims c = write_role c.role (
    write_ℤ c.iat
      (write_ℤ c.exp (write c.sub (write c.email (write c.workspace_id (write c.token_type []))))))

read_claims : Str → AccessClaims
read_claims t =
    let (role, t1) = read_role t in
    let (iat, t2) = read_ℤ t1 in
    let (exp, t3) = read_ℤ t2 in
    let (sub, t4) = read t3 in
    let (email, t5) = read t4 in
    let (workspace_id, t6) = read t5 in
    record {
      sub = sub;
      email = email;
      workspace_id = workspace_id;
      role = role;
      token_type = (read t6).0;
      iat = iat;
      exp = exp;
    }

read-write_claims : (c : AccessClaims) → read_claims (write_claims c) ≡ c
unfolding read_claims write_claims
read-write_claims c = simp (read-write, read-write_ℤ, read-write_role)

abbrev plain : Libraries
plain = record {
  token_hash = λ t. t;
  is_password_hash = λ h. true;
  verify_password = λ p h. p == h;
  encode = λ c secret. inr (write_claims c);
  decode = λ now token secret. some (read_claims token);
  show_uuid = λ id. id ∷ [];
  parse_uuid = λ t. elim t [ [] ↦ none | id ∷ rest ↦ some id ];
}

plain-ReadBack : ReadBack plain
plain-ReadBack = record {
  decodes = λ claims secret token now made early. ground (arith, read-write_claims claims);
  parses = λ id. refl;
}

abbrev response : AuthTokensResponse
response = record {
  access_token = write_claims (record {
    sub = 4 ∷ [];
    email = text "a@x";
    workspace_id = 1 ∷ [];
    role = member;
    token_type = text "access";
    iat = pos 500;
    exp = pos 1400;
  });
  refresh_token = text "new";
  access_expires_at = pos 1400;
  refresh_expires_at = pos 2592500;
}

login_test :
    (login plain auth (draw (text "new")) config (text " A@x") (text "pw") none store).0
    ≡ ok response
unfolding login store text_tests lookup galynx_api.Storage.Accounts.get_auth_user_by_email
    galynx_api.Auth.Service.ensure_bootstrap_seed
    galynx_api.Storage.Accounts.find_primary_membership galynx_api.Auth.Service.issue_tokens
    galynx_api.Auth.Service.primary_membership galynx_api.Common.sort_by
    galynx_api.Storage.Accounts.list_user_memberships galynx_api.Auth.Context.from_storage_role
    galynx_api.Auth.Service.sign galynx_api.Common.◌+ℤ◌
login_test = refl

login-authenticates_example :
    IsAuthenticated plain auth plain-ReadBack
      (draw (text "new"))
      config
      (text " A@x")
      (text "pw")
      none
      store
      response
      (draw (text "later"))
      store
login-authenticates_example =
    login-authenticates plain auth plain-ReadBack (draw (text "new")) config (text " A@x")
      (text "pw") none store response (draw (text "later")) store login_test refl
