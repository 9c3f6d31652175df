-- ===== src/Access/Tokens.antt =====
-- apps/api/src/tokens/tokens.service.ts: API tokens of a project.
use kase_ai.Prelude.{
  ℕ, String, ◌&&◌, Option, none, some, List, ◌∷◌, ◌==◌, string_eq, Result, ok, err, find, filter,
  is_some, update_where, if◌then◌else◌,
}
use kase_ai.Access.{Problem, not_found, token_revoked, token_created, ApiToken, AccessTables}
use kase_ai.Access.Guards.{record_trail}

-- `create`, for the plaintext that `generateApiToken` has drawn, of which only the hash is kept.
unfoldable pub create_token :
    String → String → String → String → Option ℕ → AccessTables → AccessTables
create_token id project_id token_hash role expires_at db =
    record_trail (token_created id) (record db {
      tokens =
          record {
            id = id;
            project_id = project_id;
            token_hash = token_hash;
            role = role;
            expires_at = expires_at;
            revoked_at = none;
          }
          ∷ db.tokens;
    })

unfoldable pub list_tokens : String → AccessTables → List ApiToken
list_tokens project_id db = filter (λ r. r.project_id == project_id) db.tokens

-- `revoke`: a second revocation changes nothing.
unfoldable pub revoke : String → String → ℕ → AccessTables → Result Problem AccessTables
revoke project_id token_id now db =
    elim (find (λ r. r.id == token_id && r.project_id == project_id) db.tokens) [
      | none ↦ err not_found
      | some r ↦
          if is_some r.revoked_at
          then ok db
          else ok (
              record_trail (token_revoked token_id) (record db {
                tokens =
                    update_where (λ k. k.id == token_id) (λ k. record k { revoked_at = some now })
                      db.tokens;
              }))
    ]
