-- ===== src/Replication/Client/Handshake/Fuel.antt =====
-- The loops of the handshake in replication/client.rs, against the messages that they read.
use pg_x.Base.{
  ℕ, zero, suc, ◌<◌, ◌≢◌, inl, inr, Bool-cases, Bool, true, false, ◌==◌, if◌then◌else◌, length,
  arith,
}
use pg_x.Base.Int.{ℤ}
use pg_x.Text.{Bytes}
use pg_x.Replication.Messages.{parse_auth_request, parse_sasl_mechanisms}
use pg_x.Replication.BytesCrate.{BytesCrate}
use pg_x.Replication.Framing.{BackendMessage}
use pg_x.Replication.Scram
use pg_x.Replication.Scram.{Crypto, ScramClient}
use pg_x.Replication.Client.Talk.{Link, out_of_fuel, give, lift}
use pg_x.Replication.Client.Handshake.{
  ReplicationConfig, is_code, offers_scram, server_error, await_rounds, await_tag, startup,
  auth_data, read_auth_rounds, read_auth_data, scram_with, auth_scram, handle_auth, auth_request,
  auth_rounds, authenticate, create_temp_slot, start_replication, connect,
}
use pg_x.Replication.Client.Talk.Fed.{
  Fed, weaken, loosen, fails-Fed, gives-Fed, lift-Fed, send-Fed, bind-Fed, read-Fed,
}

server_error-Fed :
    {A : Type 0} (n : ℕ) (m : BackendMessage) (l : Link)
    → length l.incoming < n
    → Fed {A = A} n (server_error m l)
unfolding server_error
server_error-Fed n m l h = fails-Fed _ n _ l h

await_rounds-Fed : (n tag : ℕ) (l : Link) → length l.incoming < n → Fed n (await_rounds n tag l)
unfolding await_rounds
await_rounds-Fed zero tag l h = absurd (omega arith)
await_rounds-Fed (suc n) tag l h = read-Fed n _ l h λ m l' h'.
    let h'' : length l'.incoming < suc n = omega arith in
    elim (Bool-cases (m.tag == tag)) [
      | inl e ↦ rw e (gives-Fed (suc n) tt l' h'')
      | inr e ↦ elim (Bool-cases (m.tag == b'E')) [
        | inl e' ↦ rw (e, e') (server_error-Fed (suc n) m l' h'')
        | inr e' ↦ rw (e, e') (weaken n _ (await_rounds-Fed n tag l' h'))
      ]
    ]

module _ (c : BytesCrate) (k : Crypto) (nonces : ℕ → Bytes) (cfg : ReplicationConfig) where
  auth_data-Fed :
      (n expected : ℕ) (m : BackendMessage) (l : Link)
      → length l.incoming < n
      → Fed n (auth_data c k nonces cfg expected m l)
  unfolding auth_data
  auth_data-Fed n expected m l h =
      bind-Fed n (lift (parse_auth_request c m.payload)) _ l
        (lift-Fed n (parse_auth_request c m.payload) l h)
        λ r l' h'. elim (Bool-cases (is_code expected r.0)) [
          | inl e ↦ rw e (gives-Fed n r.1 l' h')
          | inr e ↦ rw e (fails-Fed _ n _ l' h')
        ]

  read_auth_rounds-Fed :
      (n expected : ℕ) (l : Link)
      → length l.incoming < n
      → Fed n (read_auth_rounds c k nonces cfg n expected l)
  unfolding read_auth_rounds
  read_auth_rounds-Fed zero expected l h = absurd (omega arith)
  read_auth_rounds-Fed (suc n) expected l h = read-Fed n _ l h λ m l' h'.
      let h'' : length l'.incoming < suc n = omega arith in
      elim (Bool-cases (m.tag == b'R')) [
        | inl e ↦ rw e (auth_data-Fed (suc n) expected m l' h'')
        | inr e ↦ elim (Bool-cases (m.tag == b'E')) [
          | inl e' ↦ rw (e, e') (server_error-Fed (suc n) m l' h'')
          | inr e' ↦ rw (e, e') (weaken n _ (read_auth_rounds-Fed n expected l' h'))
        ]
      ]

  scram_with-Fed :
      (n : ℕ) (client : ScramClient) (l : Link)
      → length l.incoming < n
      → Fed n (scram_with c k nonces cfg client l)
  unfolding scram_with read_auth_data
  scram_with-Fed n client l h = bind-Fed n _ _ l (send-Fed n _ l h) λ _ l1 h1.
      bind-Fed n _ _ l1 (read_data-Fed 11 l1 h1) λ first l2 h2.
        bind-Fed n _ _ l2 (lift-Fed n _ l2 h2) λ final l3 h3.
          bind-Fed n _ _ l3 (send-Fed n _ l3 h3)
            λ _ l4 h4. bind-Fed n _ _ l4 (read_data-Fed 12 l4 h4) λ last l5 h5. lift-Fed n _ l5 h5
    where
      read_data-Fed :
          (expected : ℕ) (l : Link)
          → length l.incoming < n
          → Fed n (read_auth_rounds c k nonces cfg (suc (length l.incoming)) expected l)
      read_data-Fed expected l h =
          loosen n l _ h (read_auth_rounds-Fed (suc (length l.incoming)) expected l (omega arith))

  handle_auth-Fed :
      (n : ℕ) (code : ℤ) (bytes : Bytes) (l : Link)
      → length l.incoming < n
      → Fed n (handle_auth c k nonces cfg code bytes l)
  unfolding handle_auth auth_scram
  handle_auth-Fed n code bytes l h = elim (Bool-cases (is_code 0 code)) [
    | inl e ↦ rw e (gives-Fed n tt l h)
    | inr e ↦ elim (Bool-cases (is_code 3 code)) [
      | inl e3 ↦ rw (e, e3) (send-Fed n _ l h)
      | inr e3 ↦ elim (Bool-cases (is_code 10 code)) [
        | inl e10 ↦ elim (Bool-cases (offers_scram (parse_sasl_mechanisms bytes))) [
          | inl o ↦
              rw (e, e3, e10, o)
                (scram_with-Fed n (Scram.new k (nonces (length l.incoming)) cfg.user) l h)
          | inr o ↦ rw (e, e3, e10, o) (fails-Fed _ n _ l h)
        ]
        | inr e10 ↦ rw (e, e3, e10) (fails-Fed _ n _ l h)
      ]
    ]
  ]

  auth_request-Fed :
      (n : ℕ) (m : BackendMessage) (l : Link)
      → length l.incoming < n
      → Fed n (auth_request c k nonces cfg m l)
  unfolding auth_request
  auth_request-Fed n m l h =
      bind-Fed n _ _ l (lift-Fed n (parse_auth_request c m.payload) l h)
        λ r l' h'. handle_auth-Fed n r.0 r.1 l' h'

  auth_rounds-Fed :
      (n : ℕ) (l : Link) → length l.incoming < n → Fed n (auth_rounds c k nonces cfg n l)
  unfolding auth_rounds
  auth_rounds-Fed zero l h = absurd (omega arith)
  auth_rounds-Fed (suc n) l h = read-Fed n _ l h λ m l' h'.
      let h'' : length l'.incoming < suc n = omega arith in
      elim (Bool-cases (m.tag == b'R')) [
        | inl e ↦ rw e (
            weaken n _
              (bind-Fed n _ _ l' (auth_request-Fed n m l' h') (λ _ l2 h2. auth_rounds-Fed n l2 h2)))
        | inr e ↦ elim (Bool-cases (m.tag == b'E')) [
          | inl e' ↦ rw (e, e') (server_error-Fed (suc n) m l' h'')
          | inr e' ↦ elim (Bool-cases (m.tag == b'Z')) [
            | inl z ↦ rw (e, e', z) (gives-Fed (suc n) tt l' h'')
            | inr z ↦ rw (e, e', z) (weaken n _ (auth_rounds-Fed n l' h'))
          ]
        ]
      ]

  await_tag-Fed : (n tag : ℕ) (l : Link) → length l.incoming < n → Fed n (await_tag tag l)
  unfolding await_tag
  await_tag-Fed n tag l h =
      loosen n l _ h (await_rounds-Fed (suc (length l.incoming)) tag l (omega arith))

  authenticate-Fed :
      (n : ℕ) (l : Link) → length l.incoming < n → Fed n (authenticate c k nonces cfg l)
  unfolding authenticate
  authenticate-Fed n l h =
      loosen n l _ h (auth_rounds-Fed (suc (length l.incoming)) l (omega arith))

  create_temp_slot-Fed :
      (n : ℕ) (l : Link) → length l.incoming < n → Fed n (create_temp_slot c k nonces cfg l)
  unfolding create_temp_slot
  create_temp_slot-Fed n l h =
      bind-Fed n _ _ l (send-Fed n _ l h) λ _ l' h'. await_tag-Fed n b'Z' l' h'

  start_replication-Fed :
      (n : ℕ) (l : Link) → length l.incoming < n → Fed n (start_replication c k nonces cfg l)
  unfolding start_replication
  start_replication-Fed n l h =
      bind-Fed n _ _ l (send-Fed n _ l h) λ _ l' h'. await_tag-Fed n b'W' l' h'

  temporary-Fed :
      (n : ℕ) (b : Bool) (l : Link)
      → length l.incoming < n
      → Fed n ((if b then create_temp_slot c k nonces cfg else give tt) l)
  temporary-Fed n true l h = create_temp_slot-Fed n l h
  temporary-Fed n false l h = gives-Fed n tt l h

  -- Whatever the server sends, the handshake ends: it streams, fails with one of the code's errors, or
  -- waits for a message.
  pub connect-ne-out_of_fuel : (l : Link) → (connect c k nonces cfg l).0 ≢ out_of_fuel
  unfolding connect startup
  connect-ne-out_of_fuel l =
      let n = suc (length l.incoming) in
      let all : Fed n (connect c k nonces cfg l) =
        bind-Fed n _ _ l (send-Fed n _ l (omega arith)) λ _ l1 h1.
          bind-Fed n _ _ l1 (authenticate-Fed n l1 h1) λ _ l2 h2.
            bind-Fed n _ _ l2 (temporary-Fed n cfg.temporary l2 h2)
              λ _ l3 h3. start_replication-Fed n l3 h3 in
      all.fine
