-- ===== src/Access/Revocation.antt =====
-- A revoked token opens nothing any more.
use kase_ai.Prelude.{
  ℕ, String, ◌≡◌, refl, ◌∙◌, inl, inr, true, false, ◌&&◌, some, map, arith, ◌==◌, string_eq, Result,
  ok, err, ok_injective, find, find-update_where, is_some, Bool-cases, Option-cases, update_where,
}
use kase_ai.Orchestrator.JobGraph.Validation.{IsUnique}
use kase_ai.Orchestrator.History.Keys.{find-eq-some, same_row}
use kase_ai.Access.{Problem, unauthenticated, token_revoked, ApiToken, AccessTables, Externals}
use kase_ai.Access.Guards.{is_usable, authenticate_token, record_trail}
use kase_ai.Access.Tokens.{revoke}

abbrev revoked_row : ℕ → ApiToken → ApiToken
revoked_row now r = record r { revoked_at = some now }

-- The row that a hash finds after the revocation of its token is revoked.
revoked-find :
    (hash project_id : String) (now : ℕ) (db db' : AccessTables) (r : ApiToken)
    → IsUnique (map (λ k. k.id) db.tokens)
    → find (λ k. k.token_hash == hash) db.tokens ≡ some r
    → revoke project_id r.id now db ≡ ok db'
    → (r' : ApiToken) × (find (λ k. k.token_hash == hash) db'.tokens ≡ some r')
      × (is_some r'.revoked_at ≡ true)
unfolding revoke
revoked-find hash project_id now db db' r keys found e =
    elim (Option-cases (find (λ k. k.id == r.id && k.project_id == project_id) db.tokens)) [
      | inl missing ↦ let bad = rw (missing, revoke) at e in cc
      | inr (s, hit) ↦ elim (Bool-cases (is_some s.revoked_at)) [
        | inl before ↦
            let same : ◌≡◌ {A = Result Problem AccessTables} (ok db) (ok db') =
              rw (hit, before, revoke) at e in
            let (m, own) = find-eq-some _ db.tokens s hit in
            let (n, _) = find-eq-some _ db.tokens r found in
            let one : s ≡ r =
              same_row (λ k. k.id) db.tokens s r keys m n
                (ground (arith, own, string_eq.eqb_iff s.id r.id)) in
            (r, rw (← ok_injective same) found, rw (← one) before)
        | inr fresh ↦
            let same : ◌≡◌ {A = Result Problem AccessTables}
                (ok (
                  record_trail (token_revoked r.id) (record db {
                    tokens = update_where (λ k. k.id == r.id) (revoked_row now) db.tokens;
                  })))
                (ok db') =
              rw (hit, fresh, revoke) at e in
            let own : (r.id == r.id) ≡ true = (string_eq.eqb_iff r.id r.id).1 refl in
            let moved =
              find-update_where (λ k. k.token_hash == hash) (λ k. k.id == r.id) (revoked_row now)
                db.tokens r (λ k. refl) found in
            (revoked_row now r, rw (← ok_injective same) (moved ∙ rw own refl), refl)
      ]
    ]

-- Once a token has been revoked, or was already, whoever presents its plaintext is refused, at whatever
-- time, even if the token has not expired.
pub revoked_refused :
    (ext : Externals) (plaintext project_id : String) (now later : ℕ) (db db' : AccessTables)
    (r : ApiToken)
    → IsUnique (map (λ k. k.id) db.tokens)
    → find (λ k. k.token_hash == ext.hash_api_token plaintext) db.tokens ≡ some r
    → revoke project_id r.id now db ≡ ok db'
    → (authenticate_token ext plaintext later db').0 ≡ err unauthenticated
unfolding authenticate_token
revoked_refused ext plaintext project_id now later db db' r keys found e =
    let (r', found', revoked) =
      revoked-find (ext.hash_api_token plaintext) project_id now db db' r keys found e in
    let unusable : is_usable later r' ≡ false = ground (arith, revoked) in
    rw (found', unusable, authenticate_token) refl
