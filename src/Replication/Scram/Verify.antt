-- ===== src/Replication/Scram/Verify.antt =====
-- The server's side of the authentication, as `verify_server_final` of scram.rs accepts it.
use pg_x.Base.{
  ℕ, ◌≡◌, refl, ap, ◌∙◌, ◌↔◌, inl, inr, Bool-cases, Option-cases, none, some, [], ◌∷◌, true, ◌&&◌,
  ◌==◌, length, ok, arith,
}
use Prim.Native.Nat.{bit_or, bit_xor}
use pg_x.Text.{Bytes, Text, codes}
use pg_x.Text.Split.{split, trim}
use pg_x.Word.Xor.{bit_or-eq_zero, bit_xor-eq_zero, bit_xor_self}
use pg_x.Replication.Scram.{
  Crypto, find_part, differences, signatures_agree, server_signature, check_signature,
  verify_server_final,
}

differences-eq_zero :
    (acc : ℕ) (xs ys : Bytes)
    → length xs ≡ length ys
    → differences acc xs ys ≡ 0
    → (acc ≡ 0) × (xs ≡ ys)
unfolding differences
differences-eq_zero acc [] [] len h = (h, refl)
differences-eq_zero acc [] (y ∷ ys) len h = absurd (omega arith)
differences-eq_zero acc (x ∷ xs) [] len h = absurd (omega arith)
differences-eq_zero acc (x ∷ xs) (y ∷ ys) len h =
    let (now, rest) = differences-eq_zero (bit_or acc (bit_xor x y)) xs ys (omega arith) h in
    let (before, same) = bit_or-eq_zero acc (bit_xor x y) now in
    let eq = bit_xor-eq_zero x y same in (before, cc)

differences_self : (xs : Bytes) → differences 0 xs xs ≡ 0
unfolding differences
differences_self [] = refl
differences_self (x ∷ xs) = rw (bit_xor_self x) (differences_self xs)

-- The comparison in constant time is equality.
signatures_agree_iff : (a b : Bytes) → (signatures_agree a b ≡ true) ↔ (a ≡ b)
unfolding signatures_agree
signatures_agree_iff a b = (agree, same)
  where
    agree : (length a == length b && differences 0 a b == 0) ≡ true → a ≡ b
    agree h =
        let len : length a ≡ length b = ground arith in
        let none_left : differences 0 a b ≡ 0 = ground arith in
        (differences-eq_zero 0 a b len none_left).1

    same : a ≡ b → (length a == length b && differences 0 a b == 0) ≡ true
    same e = rw e (let z = differences_self b in ground arith)

module _ (k : Crypto) where
  -- The server has sent no error, and its first signature is the one that the salted password and the
  -- messages give.
  abbrev pub Signed : Text → Bytes → Text → Type 0
  Signed server_final salted_password auth_message =
      (find_part (codes "e=") (split b',' server_final) ≡ none)
      × ((v : Text) × (find_part (codes "v=") (split b',' server_final) ≡ some v)
          × (k.decode (trim v) ≡ some (server_signature k salted_password auth_message)))

  check_signature_iff :
      (v : Text) (salted_password : Bytes) (auth_message : Text)
      → (check_signature k v salted_password auth_message ≡ ok tt)
        ↔ (k.decode (trim v) ≡ some (server_signature k salted_password auth_message))
  unfolding check_signature
  check_signature_iff v sp am = elim (Option-cases (k.decode (trim v))) [
    | inl e ↦ rw e ((λ h. absurd (cc)), (λ h. absurd (cc)))
    | inr (sig, e) ↦ elim (Bool-cases (signatures_agree sig (server_signature k sp am))) [
      | inl agree ↦
          let same = (signatures_agree_iff sig (server_signature k sp am)).0 agree in
          rw (e, agree) ((λ h. ap some same), (λ h. refl))
      | inr differs ↦
          rw (e, differs)
            (
              (λ h. absurd (cc)),
              (λ h. absurd (
                  let same : sig ≡ server_signature k sp am = cc in
                  let agree = (signatures_agree_iff sig (server_signature k sp am)).1 same in cc)),
            )
    ]
  ]

  -- The server's last message is accepted exactly where it carries the right signature and no error.
  pub verify_server_final_iff :
      (server_final : Text) (salted_password : Bytes) (auth_message : Text)
      → (verify_server_final k server_final salted_password auth_message ≡ ok tt)
        ↔ Signed server_final salted_password auth_message
  unfolding verify_server_final
  verify_server_final_iff text sp am =
      elim (Option-cases (find_part (codes "e=") (split b',' text))) [
        | inr (message, e) ↦ rw e ((λ h. absurd (cc)), (λ (clean, _). absurd (cc)))
        | inl clean ↦ elim (Option-cases (find_part (codes "v=") (split b',' text))) [
          | inl missing ↦
              rw (clean, missing) ((λ h. absurd (cc)), (λ (_, (v, found, _)). absurd (cc)))
          | inr (v, found) ↦
              let check = check_signature_iff v sp am in
              rw (verify_server_final, clean, found)
                (
                  (λ h. (refl, (v, refl, check.0 h))),
                  (λ (_, (w, e, right)).
                      let same : v ≡ w = cc in check.1 (ap (λ x. k.decode (trim x)) same ∙ right)),
                )
        ]
      ]
