-- ===== src/Application/Common/Repeats.antt =====
-- What `execute_command` of packages/application/common.py answers to a command that it has run.
use saup.Base.{
  ℕ, ◌≡◌, refl, Bool, false, not, ◌&&◌, ◌||◌, ◌==◌, ltb, if◌then◌else◌, some, find?, arith, subst,
  ◌∷◌,
}
use saup.Domain.Errors.{ok, err, conflict, idempotency_conflict}
use saup.Store.Db.{Db, Env}
use saup.Store.Keys.{Document}
use saup.Store.Rows.{Command}
use saup.Store.Monad.{M, pure, raise_when, on_some, modify, gets, ◌>>=◌, ◌>>◌}
use saup.Store.Monad.Ensures.{Post, Ensures, Post-found, Post-passed, Ensures-after}
use saup.Application.Common.{execute_command}

abbrev is_command : ℕ → ℕ → Command → Bool
is_command scope key c = c.scope == scope && c.key == key

-- The command is in the table, with its payload's hash and its result, and its key is of a length that
-- is accepted.
record IsNoted (scope key key_length hash result : ℕ) (db : Db) : Type 0 where
  command : Command
  found : find? (is_command scope key) db.commands ≡ some command
  hashed : command.payload_hash ≡ hash
  gave : command.result ≡ result
  fits : (key_length == 0 || ltb 160 key_length) ≡ false

own_command :
    (scope key : ℕ) (c : Command) (commands : _)
    → c.scope ≡ scope
    → c.key ≡ key
    → find? (is_command scope key) (c ∷ commands) ≡ some c
own_command scope key c commands here same = ground (arith, here, same)

module _ (env : Env) (scope key key_length : ℕ) (payload : Document) (action : M ℕ) where
  abbrev Noted : ℕ → Db → Type 0
  Noted result = IsNoted scope key key_length (env.fingerprint payload) result

  recorded :
      (result : ℕ)
      → (key_length == 0 || ltb 160 key_length) ≡ false
      → Ensures
          (λ db. Unit {0})
          Noted
          (do
            modify (λ db. record db {
              commands =
                  record {
                    scope = scope;
                    key = key;
                    payload_hash = env.fingerprint payload;
                    result = result;
                  }
                  ∷ db.commands;
            })
            pure result)
  unfolding modify pure ◌>>=◌
  recorded result fits = record {
    at = λ db _. record {
      command = _;
      found = own_command scope key _ db.commands refl refl;
      hashed = refl;
      gave = refl;
      fits = fits;
    };
  }

  noted : (db : Db) → Post Noted (execute_command env scope key key_length payload action db)
  unfolding execute_command gets pure ◌>>=◌
  noted db = Post-passed Noted _ _ _ db λ fits.
      Post-found Noted (find? (is_command scope key) db.commands) _ _ db
        ((Ensures-after {P = λ _. Unit {0}} action _ λ result. recorded result fits).at db tt)
        (λ c found.
          Post-passed Noted (not (c.payload_hash == env.fingerprint payload)) _ _ db λ same.
            record {
              command = c;
              found = found;
              hashed = ground (arith, same);
              gave = refl;
              fits = fits;
            })

-- What a command that is in the table answers, whatever the action.
answered :
    (env : Env) (scope key key_length hash result : ℕ) (payload : Document) (action : M ℕ) (db : Db)
    → IsNoted scope key key_length hash result db
    → execute_command env scope key key_length payload action db ≡ (
        if hash == env.fingerprint payload
        then ok (result, db)
        else err (conflict idempotency_conflict))
unfolding execute_command gets pure on_some raise_when ◌>>=◌
answered env scope key key_length hash result payload action db h =
    rw (h.fits, h.found) (ground (arith, h.hashed, h.gave))

-- A command that returned, and comes again with its scope and its key, is not run again, whatever the
-- action: the same payload, by its hash, gives the earlier result, and another one a conflict. Neither
-- changes the state.
pub command_again :
    (env : Env) (scope key key_length : ℕ) (payload other : Document) (action again : M ℕ)
    (db after : Db) (result : ℕ)
    → execute_command env scope key key_length payload action db ≡ ok (result, after)
    → execute_command env scope key key_length other again after ≡ (
        if env.fingerprint payload == env.fingerprint other
        then ok (result, after)
        else err (conflict idempotency_conflict))
command_again env scope key key_length payload other action again db after result ran =
    answered env scope key key_length (env.fingerprint payload) result other again after (
      subst (Post (Noted env scope key key_length payload action)) ran
        (noted env scope key key_length payload action db))
