-- ===== src/Replication/Client/Talk/Fed.antt =====
-- Conversations that do not run out of fuel, counted in the messages that they leave.
use pg_x.Base.{ℕ, zero, suc, ◌<◌, ◌≡◌, ◌≢◌, refl, ap, List, [], ◌∷◌, length, Result, ok, err, arith}
use pg_x.Text.{Bytes}
use pg_x.Replication.Error.{ReplError}
use pg_x.Replication.Framing.{BackendMessage}
use pg_x.Replication.Client.Talk.{
  Link, Step, gives, fails, waits, out_of_fuel, Talk, on_step, ◌>>=◌, lift, read_from, read_message,
  send_with, send,
}

-- Fewer than `n` messages are left, and the fuel was enough.
pub record Fed {A : Type 0} (n : ℕ) (r : Step A × Link) : Type 0 where
  pub fine : r.0 ≢ out_of_fuel
  pub left : length r.1.incoming < n

pub weaken : {A : Type 0} (n : ℕ) (r : Step A × Link) → Fed n r → Fed (suc n) r
weaken n r h = record { fine = h.fine; left = omega (arith, h.left) }

-- Where the fuel counts from the messages that are there, any larger bound does as well.
pub loosen :
    {A : Type 0} (n : ℕ) (l : Link) (r : Step A × Link)
    → length l.incoming < n
    → Fed (suc (length l.incoming)) r
    → Fed n r
loosen n l r h f = record { fine = f.fine; left = omega (arith, f.left) }

pub waits-Fed : (A : Type 0) (n : ℕ) (l : Link) → length l.incoming < n → Fed {A = A} n (waits, l)
waits-Fed A n l h = record { fine = λ p. cc; left = h }

pub fails-Fed :
    (A : Type 0) (n : ℕ) (e : ReplError) (l : Link)
    → length l.incoming < n
    → Fed {A = A} n (fails e, l)
fails-Fed A n e l h = record { fine = λ p. cc; left = h }

pub gives-Fed : {A : Type 0} (n : ℕ) (a : A) (l : Link) → length l.incoming < n → Fed n (gives a, l)
gives-Fed n a l h = record { fine = λ p. cc; left = h }

on_step-Fed :
    {A B : Type 0} (n : ℕ) (r : Step A × Link) (f : A → Talk B)
    → Fed n r
    → ((a : A) (l : Link) → length l.incoming < n → Fed n (f a l))
    → Fed n (on_step r f)
unfolding on_step
on_step-Fed n (waits, l) f h g = waits-Fed _ n l h.left
on_step-Fed n (fails e, l) f h g = fails-Fed _ n e l h.left
on_step-Fed n (gives a, l) f h g = g a l h.left
on_step-Fed n (out_of_fuel, l) f h g = absurd (h.fine refl)

pub lift-Fed :
    {A : Type 0} (n : ℕ) (r : Result ReplError A) (l : Link)
    → length l.incoming < n
    → Fed n (lift r l)
lift-Fed n (ok a) l h = gives-Fed n a l h
lift-Fed n (err e) l h = fails-Fed _ n e l h

send_with-Fed :
    (n room : ℕ) (frame : Bytes) (l : Link) → length l.incoming < n → Fed n (send_with room frame l)
unfolding send_with
send_with-Fed n zero frame l h = fails-Fed _ n _ l h
send_with-Fed n (suc room) frame l h = gives-Fed n tt _ h

-- A message that is read is one less to read.
pub read-Fed :
    {B : Type 0} (n : ℕ) (f : BackendMessage → Talk B) (l : Link)
    → length l.incoming < suc n
    → ((m : BackendMessage) (l' : Link) → length l'.incoming < n → Fed (suc n) (f m l'))
    → Fed (suc n) ((read_message >>= f) l)
unfolding ◌>>=◌ on_step read_from read_message
read-Fed n f l h g = from l.incoming refl
  where
    from :
        (ms : List (Result ReplError BackendMessage))
        → l.incoming ≡ ms
        → Fed (suc n) (on_step (read_from ms l) f)
    from [] e = waits-Fed _ (suc n) l h
    from (ok m ∷ ms) e =
        let count : length l.incoming ≡ suc (length ms) = ap length e in
        g m (record l { incoming = ms }) (omega arith)
    from (err x ∷ ms) e =
        let count : length l.incoming ≡ suc (length ms) = ap length e in
        fails-Fed _ (suc n) x (record l { incoming = ms }) (omega arith)

pub bind-Fed :
    {A B : Type 0} (n : ℕ) (t : Talk A) (f : A → Talk B) (l : Link)
    → Fed n (t l)
    → ((a : A) (l' : Link) → length l'.incoming < n → Fed n (f a l'))
    → Fed n ((t >>= f) l)
unfolding ◌>>=◌
bind-Fed n t f l h g = on_step-Fed n (t l) f h g

pub send-Fed : (n : ℕ) (frame : Bytes) (l : Link) → length l.incoming < n → Fed n (send frame l)
unfolding send
send-Fed n frame l h = send_with-Fed n l.room frame l h

on_step-gives :
    {A B : Type 0} {b : B} {l' : Link} (r : Step A × Link) (f : A → Talk B)
    → on_step r f ≡ (gives b, l')
    → (a : A) × (m : Link) × (r ≡ (gives a, m)) × (f a m ≡ (gives b, l'))
unfolding on_step
on_step-gives (gives a, m) f e = (a, m, refl, e)
on_step-gives (waits, m) f e = cc
on_step-gives (fails x, m) f e = cc
on_step-gives (out_of_fuel, m) f e = cc

-- A conversation that succeeds is taken apart.
pub bind-gives :
    {A B : Type 0} {b : B} {l' : Link} (t : Talk A) (f : A → Talk B) (l : Link)
    → (t >>= f) l ≡ (gives b, l')
    → (a : A) × (m : Link) × (t l ≡ (gives a, m)) × (f a m ≡ (gives b, l'))
unfolding ◌>>=◌
bind-gives t f l e = on_step-gives (t l) f e

pub lift-gives :
    {A : Type 0} {a : A} {l' : Link} (r : Result ReplError A) (l : Link)
    → lift r l ≡ (gives a, l')
    → r ≡ ok a
lift-gives (ok x) l e = cc
lift-gives (err x) l e = cc

read_from-gives :
    {m : BackendMessage} {l' : Link} (ms : List (Result ReplError BackendMessage)) (l : Link)
    → read_from ms l ≡ (gives m, l')
    → (ms ≡ ok m ∷ l'.incoming) × (l'.sent ≡ l.sent)
unfolding read_from
read_from-gives [] l e = cc
read_from-gives (ok x ∷ ms) l e = (cc, cc)
read_from-gives (err x ∷ ms) l e = cc

-- A message that was read was the first one there.
pub read-gives :
    {m : BackendMessage} {l' : Link} (l : Link)
    → read_message l ≡ (gives m, l')
    → (l.incoming ≡ ok m ∷ l'.incoming) × (l'.sent ≡ l.sent)
unfolding read_message
read-gives l e = read_from-gives l.incoming l e

send_with-gives :
    {l' : Link} (room : ℕ) (frame : Bytes) (l : Link)
    → send_with room frame l ≡ (gives tt, l')
    → (l'.sent ≡ frame ∷ l.sent) × (l'.incoming ≡ l.incoming)
unfolding send_with
send_with-gives zero frame l e = cc
send_with-gives (suc room) frame l e = (cc, cc)

-- A frame that was sent is the latest one.
pub send-gives :
    {l' : Link} (frame : Bytes) (l : Link)
    → send frame l ≡ (gives tt, l')
    → (l'.sent ≡ frame ∷ l.sent) × (l'.incoming ≡ l.incoming)
unfolding send
send-gives frame l e = send_with-gives l.room frame l e

-- A lifted value is taken from no message.
pub lift-same :
    {A : Type 0} {a : A} {l' : Link} (r : Result ReplError A) (l : Link)
    → lift r l ≡ (gives a, l')
    → l' ≡ l
lift-same (ok x) l e = cc
lift-same (err x) l e = cc

pub gives-injective :
    {A : Type 0} {a b : A} {l l' : Link}
    → ◌≡◌ {A = Step A × Link} (gives a, l) (gives b, l')
    → (a ≡ b) × (l ≡ l')
gives-injective e = (cc, cc)
