-- ===== src/Replication/Client/Exchange.antt =====
-- `SharedProgress::update_applied` among other writers.
use pg_x.Base.{◌≤◌, ◌<◌, ◌≡◌, ◌⊎◌, Option, none, some, List, [], ◌∷◌, arith, All}
use pg_x.Replication.Lsn.{Lsn}
use pg_x.Replication.Client.{stores}

-- Some value of the list is at least `bound`.
abbrev pub Reached : Lsn → List Lsn → Type 0
Reached bound [] = ⊥
Reached bound (x ∷ xs) = (bound ≤ x) ⊎ Reached bound xs

-- What the call leaves, by what it stored.
abbrev pub StoreMeans : Lsn → List Lsn → Option Lsn → Type 0
StoreMeans new seen none = Reached new seen
StoreMeans new seen (some stored) = (stored ≡ new) × All (λ x. x < new) seen

-- Whatever the other tasks write between the attempts, the call stores nothing but its own LSN, and
-- that only over smaller ones; if it stores nothing, some task had already reached that LSN.
pub stores-StoreMeans :
    (new current : Lsn) (observed : List Lsn)
    → StoreMeans new (current ∷ observed) (stores new current observed)
unfolding stores
stores-StoreMeans new current [] = ground arith
stores-StoreMeans new current (seen ∷ observed) =
    ground (arith, stores-StoreMeans new seen observed)
