-- ===== src/Auth/Spent/Rotation.antt =====
-- RotateRefresh and a token's hash: what a success leaves, and when there can be none.
use goph_keeper.Common.{ℕ, String, true, false, ◌≡◌, refl, none, some, List, [], ◌∷◌, arith}
use goph_keeper.Common.Table.{find?, exists?}
use goph_keeper.Common.Rows.{exists?-update_where}
use goph_keeper.Server.Error.{err_unauthorized}
use goph_keeper.Server.State.{Server}
use goph_keeper.Server.Exec.{found, ◌>>=◌, call, now}
use goph_keeper.Server.Keeps.{Keeps-pure, Keeps-guard, Keeps-bind}
use goph_keeper.Server.Ensures.{
  Ensures, Any, Ensures-bind, Ensures-Keeps, Ensures-Any, Ensures-transaction,
}
use goph_keeper.Auth.Types.{DeviceRecord, Session, RefreshRow}
use goph_keeper.Auth.Repository.{
  has_hash, rotatable, revoke_row, revoke_where, rotate_refresh, live_hash,
}
use goph_keeper.Auth.Spent.{Spent, revoked-none_live, insert_session-Spent}

-- No live row of a hash can be rotated.
pub rotatable-none :
    (h : List ℕ) (d : String) (at : ℕ) (devices : List DeviceRecord) (rows : List RefreshRow)
    → exists? (live_hash h) rows ≡ false
    → find? (rotatable h d at devices) rows ≡ none
unfolding exists? find?
rotatable-none h d at devices [] e = refl
rotatable-none h d at devices (x ∷ rows) e = ground (arith, rotatable-none h d at devices rows)

-- So a rotation of a spent hash does not succeed.
pub rotate-refused :
    (h : List ℕ) (d : String) (at : ℕ) (n : Session)
    → Ensures (Spent h) (rotate_refresh h d at n) (λ _ _. ⊥)
unfolding rotate_refresh call ◌>>=◌
rotate-refused h d at n = record {
  after = λ s p ids k. ground (arith, rotatable-none h d at s.devices s.refresh_tokens p.0);
}

rotatable-has_hash :
    (h : List ℕ) (d : String) (at : ℕ) (devices : List DeviceRecord) (rows : List RefreshRow)
    (row : RefreshRow)
    → find? (rotatable h d at devices) rows ≡ some row
    → exists? (has_hash h) rows ≡ true
unfolding exists? find?
rotatable-has_hash h d at devices [] row e = absurd cc
rotatable-has_hash h d at devices (x ∷ rows) row e =
    ground (arith, rotatable-has_hash h d at devices rows row)

-- a row of the hash
abbrev pub HasHash : List ℕ → Server → Type 0
HasHash h s = exists? (has_hash h) s.refresh_tokens ≡ true

selected :
    (h : List ℕ) (d : String) (at : ℕ)
    → Ensures Any
        (λ s. found (find? (rotatable h d at s.devices) s.refresh_tokens) err_unauthorized s)
        (λ _. HasHash h)
selected h d at = record {
  after = λ s p row e. ground (arith, rotatable-has_hash h d at s.devices s.refresh_tokens row);
}

-- The rows of a stored hash are spent when the live ones are revoked.
pub revoke-Spent : (h : List ℕ) → Ensures (HasHash h) (revoke_where (live_hash h)) (λ _. Spent h)
unfolding revoke_where call now ◌>>=◌
revoke-Spent h = record {
  after = λ s p n k. ground (
    arith,
    revoked-none_live h (s.env.times s.env.reads) s.refresh_tokens,
    exists?-update_where (has_hash h) (live_hash h) (revoke_row (s.env.times s.env.reads))
        (λ x. refl) s.refresh_tokens,
  );
}

-- A rotation that succeeds spends the old hash.
pub rotate-spends :
    (h : List ℕ) (d : String) (at : ℕ) (n : Session)
    → Ensures Any (rotate_refresh h d at n) (λ _. Spent h)
unfolding rotate_refresh
rotate-spends h d at n =
    Ensures-transaction _ (λ s p. tt) (λ a s t same k. rw same k)
      (Ensures-bind _ _ (Ensures-Any _) λ _. Ensures-bind _ _ (selected h d at) λ row.
        Ensures-bind _ _ (revoke-Spent h) λ revoked. Ensures-Keeps _ (
          Keeps-bind _ _ (Keeps-guard _ _)
            λ _. Keeps-bind _ _ (insert_session-Spent h _) λ _. Keeps-pure _))
