-- ===== src/Lease/Row.antt =====
-- The lease row, on which every statement is atomic: terms, and the margin that `confirm` leaves.
use vquasar.Base.{
  ℕ, ◌+◌, ◌/◌, ◌≤◌, ◌<◌, String, true, false, none, some, List, [], ◌∷◌, ◌≡◌, ◌≢◌, ◌⊎◌, refl, arith,
  eq_iff, eq_refl, All, All-mono,
}
use vquasar.Lease.{ttl, LeaseRow, acquire_or_renew, confirm}

-- Taking the lease: exactly when it has expired or is the caller's own. Then the caller holds it for
-- a full TTL, in the same term if it held it before and else in a new one; the other columns follow.
-- A caller that is refused changes nothing.
pub acquire_or_renew_cases :
    (id : String) (now : ℕ) (row : LeaseRow)
    → let (reply, row') = acquire_or_renew id now row in
      ((row.holder ≡ id)
        × (reply ≡ some (record { epoch = row.epoch; took_over = false }))
        × (row' ≡ record row { expires_at = now + ttl }))
      ⊎ ((row.holder ≢ id)
          × (row.expires_at < now)
          × (reply ≡ some (record { epoch = row.epoch + 1; took_over = false }))
          × (row' ≡ record row {
            holder = id;
            epoch = row.epoch + 1;
            acquired_at = now;
            expires_at = now + ttl;
          }))
      ⊎ ((row.holder ≢ id) × (now ≤ row.expires_at) × (reply ≡ none) × (row' ≡ row))
unfolding acquire_or_renew
acquire_or_renew_cases id now row = ground (arith, eq_iff row.holder id, eq_refl id)

-- The attempts of other instances, one after another, each at its own time.
abbrev pub attempts : List (String × ℕ) → LeaseRow → LeaseRow
attempts [] row = row
attempts ((id, now) ∷ rest) row = attempts rest (acquire_or_renew id now row).1

refused_attempt :
    (id : String) (now : ℕ) (row : LeaseRow)
    → row.holder ≢ id
    → now ≤ row.expires_at
    → (acquire_or_renew id now row).1 ≡ row
unfolding acquire_or_renew
refused_attempt id now row ne le = ground (arith, eq_iff row.holder id)

attempts_refused :
    (tries : List (String × ℕ)) (row : LeaseRow)
    → All (λ a. (row.holder ≢ a.0) × (a.1 ≤ row.expires_at)) tries
    → attempts tries row ≡ row
attempts_refused [] row h = refl
attempts_refused ((id, now) ∷ rest) row h =
    rw (refused_attempt id now row h.0.0 h.0.1) (attempts_refused rest row h.1)

pub confirmed :
    (id : String) (now : ℕ) (row : LeaseRow)
    → confirm id now true row ≡ true
    → (row.holder ≡ id) × (now + ttl / 2 < row.expires_at)
unfolding confirm
confirmed id now row h = ground (arith, eq_iff row.holder id)

-- An instance that confirms the lease at `now` is its holder for the next half TTL: no attempts of
-- other instances within that time change the row.
pub confirm_excludes :
    (id : String) (now : ℕ) (row : LeaseRow) (tries : List (String × ℕ))
    → confirm id now true row ≡ true
    → All (λ a. (id ≢ a.0) × (a.1 ≤ now + ttl / 2)) tries
    → (row.holder ≡ id) × (attempts tries row ≡ row)
confirm_excludes id now row tries h others =
    let (mine, margin) = confirmed id now row h in
    (mine, attempts_refused tries row (All-mono tries (λ a o. (rw mine o.0, omega arith)) others))
