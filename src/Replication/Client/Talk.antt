-- ===== src/Replication/Client/Talk.antt =====
-- A conversation with the server in replication/client.rs: the messages that are still to be read, and
-- the frames that were written.
pub mod Fed
use pg_x.Base.{ℕ, zero, suc, List, [], ◌∷◌, Result, ok, err}
use pg_x.Text.{Bytes}
use pg_x.Replication.Error.{ReplError, io}
use pg_x.Replication.Framing.{BackendMessage}

pub record Link : Type 0 where
  pub incoming : List (Result ReplError BackendMessage)
  -- The latest first.
  pub sent : List Bytes
  -- How many writes the connection still takes.
  pub room : ℕ

-- `waits` is a read with nothing there. The last constructor is the model's: no fuel is left.
pub data Step (A : Type 0) : Type 0 where
  waits : Step A
  fails : ReplError → Step A
  gives : A → Step A
  out_of_fuel : Step A

abbrev pub Talk : Type 0 → Type 0
Talk A = Link → Step A × Link

on_step : {A B : Type 0} → Step A × Link → (A → Talk B) → Step B × Link
on_step (waits, l) f = (waits, l)
on_step (fails e, l) f = (fails e, l)
on_step (gives a, l) f = f a l
on_step (out_of_fuel, l) f = (out_of_fuel, l)

infixl 5 ◌>>=◌ ◌>>◌
unfoldable pub ◌>>=◌ : {A B : Type 0} → Talk A → (A → Talk B) → Talk B
unfolding on_step
t >>= f = λ l. on_step (t l) f

abbrev pub ◌>>◌ : {A B : Type 0} → Talk A → Talk B → Talk B
t >> u = t >>= λ _. u

abbrev pub give : {A : Type 0} → A → Talk A
give a l = (gives a, l)

abbrev pub lift : {A : Type 0} → Result ReplError A → Talk A
lift (ok a) l = (gives a, l)
lift (err e) l = (fails e, l)

read_from : List (Result ReplError BackendMessage) → Link → Step BackendMessage × Link
read_from [] l = (waits, l)
read_from (ok m ∷ ms) l = (gives m, record l { incoming = ms })
read_from (err e ∷ ms) l = (fails e, record l { incoming = ms })

-- `read_message`
unfoldable pub read_message : Talk BackendMessage
unfolding read_from
read_message l = read_from l.incoming l

send_with : ℕ → Bytes → Link → Step (Unit {0}) × Link
send_with zero frame l = (fails io, l)
send_with (suc room) frame l = (gives tt, record l { sent = frame ∷ l.sent; room = room })

-- `write_all` and `flush` of a frame.
unfoldable pub send : Bytes → Talk (Unit {0})
unfolding send_with
send frame l = send_with l.room frame l
