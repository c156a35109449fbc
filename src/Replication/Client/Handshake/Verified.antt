-- ===== src/Replication/Client/Handshake/Verified.antt =====
-- What the SCRAM exchange of replication/client.rs has read, sent and checked where it succeeds.
use mathlib.Core.Path.{subst}
use pg_x.Base.{
  ℕ, zero, suc, ◌==◌, ◌≡◌, ◌≢◌, sym, ap, ◌∙◌, inl, inr, Bool-cases, List, ◌∷◌, true, length, Result,
  ok, arith,
}
use pg_x.Base.Int.{ℤ, pos, negsuc}
use pg_x.Text.{Bytes}
use pg_x.Text.Utf8.{from_utf8_lossy}
use pg_x.Replication.BytesCrate.{BytesCrate}
use pg_x.Replication.Error.{ReplError}
use pg_x.Replication.Framing.{BackendMessage, password_message}
use pg_x.Replication.Messages.{parse_auth_request}
use pg_x.Replication.Scram
use pg_x.Replication.Scram.{Crypto, ScramClient, ClientFinal, client_final_of}
use pg_x.Replication.Scram.Verify.{Signed, verify_server_final_iff}
use pg_x.Replication.Client.Talk.{Link, Step, gives, fails, lift, read_message}
use pg_x.Replication.Client.Talk.Fed.{
  bind-gives, lift-gives, lift-same, gives-injective, read-gives, send-gives,
}
use pg_x.Replication.Client.Handshake.{
  ReplicationConfig, is_code, auth_data, read_auth_rounds, read_auth_data, initial_response,
  scram_with, auth_scram,
}

-- The messages up to the first authentication request, which has the code and the data. Those in
-- front of it, no errors among them, are passed over, and the last list is what stands behind it.
pub data Heard (c : BytesCrate) (code : ℕ) (bytes : Bytes)
    : List (Result ReplError BackendMessage) → List (Result ReplError BackendMessage) → Type 0 where
  request :
      (m : BackendMessage) {ms : List (Result ReplError BackendMessage)}
      → m.tag ≡ b'R'
      → parse_auth_request c m.payload ≡ ok (pos code, bytes)
      → Heard c code bytes (ok m ∷ ms) ms
  passed_over :
      (m : BackendMessage) {ms behind : List (Result ReplError BackendMessage)}
      → m.tag ≢ b'R'
      → m.tag ≢ b'E'
      → Heard c code bytes ms behind
      → Heard c code bytes (ok m ∷ ms) behind

fails-ne-gives :
    {A : Type 0} {x : ReplError} {a : A} {l l' : Link}
    → ◌≡◌ {A = Step A × Link} (fails x, l) (gives a, l')
    → ⊥
fails-ne-gives e = cc

is_code-pos : (n : ℕ) (z : ℤ) → is_code n z ≡ true → z ≡ pos n
is_code-pos n (pos m) e = let same : m ≡ n = ground arith in ap pos same
is_code-pos n (negsuc m) e = cc

module _ (c : BytesCrate) (k : Crypto) (nonces : ℕ → Bytes) (cfg : ReplicationConfig) where
  auth_data-gives :
      (code : ℕ) (m : BackendMessage) {bytes : Bytes} (l l' : Link)
      → auth_data c k nonces cfg code m l ≡ (gives bytes, l')
      → (parse_auth_request c m.payload ≡ ok (pos code, bytes)) × (l' ≡ l)
  unfolding auth_data
  auth_data-gives code m {bytes} l l' e =
      let (r, l1, e1, e2) = bind-gives (lift (parse_auth_request c m.payload)) _ l e in
      elim (Bool-cases (is_code code r.0)) [
        | inl expected ↦
            let (given, same) = gives-injective (rw expected at e2) in
            let whole : r ≡ (pos code, bytes) = cc (is_code-pos code r.0 expected, given) in
            (lift-gives _ l e1 ∙ ap ok whole, sym same ∙ lift-same _ l e1)
        | inr other ↦ absurd (fails-ne-gives (rw other at e2))
      ]

  read_auth_rounds-Heard :
      (n code : ℕ) {bytes : Bytes} (l l' : Link)
      → read_auth_rounds c k nonces cfg n code l ≡ (gives bytes, l')
      → Heard c code bytes l.incoming l'.incoming × (l'.sent ≡ l.sent)
  unfolding read_auth_rounds
  read_auth_rounds-Heard zero code l l' e = cc
  read_auth_rounds-Heard (suc n) code {bytes} l l' e =
      let (m, l1, e1, e2) = bind-gives read_message _ l e in
      let (first, kept) = read-gives l e1 in
      elim (Bool-cases (m.tag == b'R')) [
        | inl asked ↦
            let (parsed, same) = auth_data-gives code m l1 l' (rw asked at e2) in
            let tag : m.tag ≡ b'R' = ground arith in
            (
              subst (λ ms. Heard c code bytes ms l'.incoming) (sym first)
                  (subst (λ u. Heard c code bytes (ok m ∷ l1.incoming) u.incoming) (sym same)
                    (request m tag parsed)),
              ap (λ u. u.sent) same ∙ kept,
            )
        | inr other ↦ elim (Bool-cases (m.tag == b'E')) [
          | inl refused ↦ absurd (fails-ne-gives (rw (other, refused) at e2))
          | inr passed ↦
              let (heard, sent) = read_auth_rounds-Heard n code l1 l' (rw (other, passed) at e2) in
              (
                subst (λ ms. Heard c code bytes ms l'.incoming) (sym first)
                    (passed_over m (λ t. ground (arith, other, t)) (λ t. ground (arith, passed, t))
                      heard),
                sent ∙ kept,
              )
        ]
      ]

  read_auth_data-Heard :
      (code : ℕ) {bytes : Bytes} (l l' : Link)
      → read_auth_data c k nonces cfg code l ≡ (gives bytes, l')
      → Heard c code bytes l.incoming l'.incoming × (l'.sent ≡ l.sent)
  unfolding read_auth_data
  read_auth_data-Heard code l l' e = read_auth_rounds-Heard (suc (length l.incoming)) code l l' e

  -- The exchange of one client between two states of the conversation: the server's two messages, as
  -- the conversation gives them in turn, the two that the client wrote, and the check of the second on
  -- what the client has computed from the first.
  abbrev pub Exchanged : ScramClient → Link → Link → Type 0
  Exchanged client l l' =
      (first last : Bytes) × (between : List (Result ReplError BackendMessage))
      × (final : ClientFinal) × Heard c 11 first l.incoming between
      × Heard c 12 last between l'.incoming
      × (client_final_of k client cfg.password (from_utf8_lossy first) ≡ ok final)
      × (l'.sent
          ≡ password_message c final.client_final
            ∷ password_message c (initial_response c k nonces cfg client.client_first)
            ∷ l.sent)
      × Signed k (from_utf8_lossy last) final.salted_password final.auth_message

  scram_with-Exchanged :
      (client : ScramClient) (l l' : Link)
      → scram_with c k nonces cfg client l ≡ (gives tt, l')
      → Exchanged client l l'
  unfolding scram_with
  scram_with-Exchanged client l l' e =
      let (_, l1, s1, e1) = bind-gives _ _ l e in
      let (first, l2, r1, e2) = bind-gives _ _ l1 e1 in
      let (final, l3, computed, e3) = bind-gives _ _ l2 e2 in
      let (_, l4, s2, e4) = bind-gives _ _ l3 e3 in
      let (last, l5, r2, e5) = bind-gives _ _ l4 e4 in
      let verified = lift-gives _ l5 e5 in
      let (sent1, kept1) = send-gives _ l s1 in
      let (heard1, still1) = read_auth_data-Heard 11 l1 l2 r1 in
      let (sent2, kept2) = send-gives _ l3 s2 in
      let (heard2, still2) = read_auth_data-Heard 12 l4 l5 r2 in
      let same3 = lift-same _ l2 computed in
      let same5 = lift-same _ l5 e5 in
      (
        first,
        last,
        l2.incoming,
        final,
        subst (λ ms. Heard c 11 first ms l2.incoming) kept1 heard1,
        subst (λ ms. Heard c 12 last ms l'.incoming) (kept2 ∙ ap (λ u. u.incoming) same3)
            (subst (λ u. Heard c 12 last l4.incoming u.incoming) (sym same5) heard2),
        lift-gives _ l2 computed,
        ap (λ u. u.sent) same5
            ∙ still2
            ∙ sent2
            ∙ ap (λ u. password_message c final.client_final ∷ u)
                (ap (λ u. u.sent) same3 ∙ still1 ∙ sent1),
        (verify_server_final_iff k (from_utf8_lossy last) final.salted_password
              final.auth_message).0
            verified,
      )

  -- An exchange that succeeds has gone by the conversation. Of the messages that were there, the first
  -- authentication request had code 11 and gave the server's first message, and the next had code 12
  -- and gave its last; what was in between were no errors. The client has written its first message
  -- and then the final message that it computes from the server's first. The server's last message
  -- carries the signature, with the keys and over the messages that were computed with that one.
  pub auth_scram-Exchanged :
      (l l' : Link)
      → auth_scram c k nonces cfg l ≡ (gives tt, l')
      → Exchanged (Scram.new k (nonces (length l.incoming)) cfg.user) l l'
  unfolding auth_scram
  auth_scram-Exchanged l l' e =
      scram_with-Exchanged (Scram.new k (nonces (length l.incoming)) cfg.user) l l' e
