-- ===== src/Replication/Decoder/Decodes.antt =====
-- What it means that a reader of replication/decoder.rs reads an encoding: wherever the encoding
-- stands in the buffer, the reader returns the value and stops just behind it.
use pg_x.Base.{
  ℕ, zero, suc, ◌+◌, ◌<◌, ◌≡◌, refl, sym, ap, ◌∙◌, true, false, [], ◌∷◌, ◌++◌, arith, length,
  get_or, take, drop, All, ok, length-append, length-drop, take-append, drop-append, drop-drop,
  le→ltb_false, lt→leb_false, ◌≢◌, ◌≤◌, ltb,
}
use pg_x.Base.Int.{ℤ, to_unsigned, InRange, to_unsigned-lt, to_signed-to_unsigned}
use pg_x.Text.{Bytes, Text}
use pg_x.Text.Utf8.{is_utf8}
use pg_x.Word.{to_be_bytes, u16_mod, u32_mod, length-to_be_bytes, u16_roundtrip, u32_roundtrip}
use pg_x.Replication.Decoder.Buf.{
  Buf, Reader, advance, slice, read_u8, read_u16, read_u32, read_i32, read_bytes, read_cstring,
  until_zero,
}
use pg_x.Replication.Decoder.Reader.{pure, continue, ◌>>=◌}
use mathlib.Core.List.{append_assoc}
use native.Mathlib.Nat.{add_assoc, add-zero}

-- The bytes from the buffer's position on.
pub record Stands (b : Buf) (left : Bytes) : Type 0 where
  pub within : b.pos ≤ length b.bytes
  pub ahead : drop b.pos b.bytes ≡ left

pub record Decodes {ℓ} {A : Type ℓ} (m : Reader A) (e : Bytes) (v : A) : Type ℓ where
  pub at : (b : Buf) (rest : Bytes) → Stands b (e ++ rest) → m b ≡ ok (v, advance (length e) b)

-- An encoding that stands in the buffer fits into it.
fits :
    (b : Buf) (e rest : Bytes)
    → Stands b (e ++ rest)
    → b.pos + length e + length rest ≡ length b.bytes
fits b e rest s = omega (arith, length-drop b.pos b.bytes, ap length s.ahead, length-append e rest)

-- Behind the first part of an encoding stands the second.
pub Stands-advance :
    (b : Buf) (e rest : Bytes) → Stands b (e ++ rest) → Stands (advance (length e) b) rest
Stands-advance b e rest s = record {
  within = omega (arith, fits b e rest s);
  ahead =
      sym (drop-drop (length e) b.pos b.bytes) ∙ ap (drop (length e)) s.ahead ∙ drop-append e rest;
}

pub advance-append :
    (b : Buf) (e e' : Bytes)
    → advance (length e') (advance (length e) b) ≡ advance (length (e ++ e')) b
advance-append b e e' =
    ap (λ p. record b { pos = p })
      (add_assoc b.pos (length e) (length e') ∙ ap (λ n. b.pos + n) (sym (length-append e e')))

module _ {ℓ κ} {A : Type ℓ} {B : Type κ} where
  pub Decodes-bind :
      {m : Reader A} {e : Bytes} {v : A} (f : A → Reader B) {e' : Bytes} {w : B}
      → Decodes m e v
      → Decodes (f v) e' w
      → Decodes (m >>= f) (e ++ e') w
  unfolding ◌>>=◌
  Decodes-bind {m} {e} {v} f {e'} {w} dm df = record {
    at = λ b rest s.
        let s' = rw append_assoc at s in
        ap (λ r. continue r f) (dm.at b (e' ++ rest) s')
        ∙ df.at (advance (length e) b) rest (Stands-advance b e (e' ++ rest) s')
        ∙ ap (λ c. ok (w, c)) (advance-append b e e');
  }

  -- A reader whose value is only packed up.
  pub Decodes-map :
      {m : Reader A} {e : Bytes} {v : A} (g : A → B)
      → Decodes m e v
      → Decodes (m >>= λ a. pure (g a)) e (g v)
  unfolding ◌>>=◌ pure
  Decodes-map g dm = record { at = λ b rest s. rw (dm.at b rest s) }

-- A reader that reads nothing.
pub Decodes-pure {ℓ} : {A : Type ℓ} (a : A) → Decodes (pure a) [] a
unfolding pure
Decodes-pure a = record {
  at = λ b rest s. ap (λ p. ok (a, record b { pos = p })) (sym (add-zero b.pos));
}

-- Such a reader in front of another changes nothing.
pub Decodes-after-pure {ℓ κ} :
    {A : Type ℓ} {B : Type κ} (a : A) (f : A → Reader B) {e : Bytes} {w : B}
    → Decodes (f a) e w
    → Decodes (pure a >>= f) e w
unfolding ◌>>=◌ pure
Decodes-after-pure a f d = record { at = d.at }

-- The bytes of an encoding that stands in the buffer.
slice-Stands : (b : Buf) (e rest : Bytes) → Stands b (e ++ rest) → slice b (length e) ≡ e
slice-Stands b e rest s = ap (take (length e)) s.ahead ∙ take-append e rest

get_or-drop : (n : ℕ) (xs : Bytes) (c : ℕ) (rest : Bytes) → drop n xs ≡ c ∷ rest → get_or xs n 0 ≡ c
get_or-drop zero [] c rest h = cc
get_or-drop zero (x ∷ xs) c rest h = cc
get_or-drop (suc n) [] c rest h = cc
get_or-drop (suc n) (x ∷ xs) c rest h = get_or-drop n xs c rest h

pub read_u8-Decodes : (c : ℕ) → Decodes read_u8 (c ∷ []) c
unfolding read_u8
read_u8-Decodes c = record {
  at = λ b rest s. ground (arith, fits b (c ∷ []) rest s, get_or-drop b.pos b.bytes c rest s.ahead);
}

-- What `ensure` and the slice behind it give at an encoding of `n` bytes.
word-Stands :
    (n : ℕ) (b : Buf) (e rest : Bytes)
    → length e ≡ n
    → Stands b (e ++ rest)
    → (ltb (length b.bytes) (b.pos + n) ≡ false) × (slice b n ≡ e)
word-Stands n b e rest h s =
    (le→ltb_false _ _ (omega (arith, fits b e rest s)), rw (← h) (slice-Stands b e rest s))

pub read_bytes-Decodes : (e : Bytes) → Decodes (read_bytes (length e)) e e
unfolding read_bytes
read_bytes-Decodes e = record {
  at = λ b rest s. let (p, q) = word-Stands (length e) b e rest refl s in rw (p, q);
}

pub read_u16-Decodes : (x : ℕ) → x < u16_mod → Decodes read_u16 (to_be_bytes 2 x) x
unfolding read_u16
read_u16-Decodes x h = record {
  at = λ b rest s.
      let n = length-to_be_bytes 2 x in
      let (p, q) = word-Stands 2 b (to_be_bytes 2 x) rest n s in rw (p, q, n, u16_roundtrip x h);
}

pub read_u32-Decodes : (x : ℕ) → x < u32_mod → Decodes read_u32 (to_be_bytes 4 x) x
unfolding read_u32
read_u32-Decodes x h = record {
  at = λ b rest s.
      let n = length-to_be_bytes 4 x in
      let (p, q) = word-Stands 4 b (to_be_bytes 4 x) rest n s in rw (p, q, n, u32_roundtrip x h);
}

pub read_i32-Decodes :
    (z : ℤ) → InRange u32_mod z → Decodes read_i32 (to_be_bytes 4 (to_unsigned u32_mod z)) z
unfolding read_i32
read_i32-Decodes z h = record {
  at = λ b rest s.
      let w = to_unsigned u32_mod z in
      let n = length-to_be_bytes 4 w in
      let (p, q) = word-Stands 4 b (to_be_bytes 4 w) rest n s in
      rw (p, q, n, u32_roundtrip w (to_unsigned-lt 4294967295 z))
        (rw (to_signed-to_unsigned u32_mod z h));
}

-- A name as `read_cstring` can read it: no zero byte, valid UTF-8.
pub record IsName (s : Text) : Type 0 where
  pub no_zero : All (λ c. c ≢ 0) s
  pub utf8 : is_utf8 s ≡ true

until_zero-append : (s rest : Bytes) → All (λ c. c ≢ 0) s → until_zero (s ++ 0 ∷ rest) ≡ length s
unfolding until_zero
until_zero-append [] rest h = refl
until_zero-append (c ∷ s) rest h = ground (arith, until_zero-append s rest h.1, h.0)

cstring_end :
    (b : Buf) (s rest : Bytes)
    → All (λ c. c ≢ 0) s
    → Stands b ((s ++ 0 ∷ []) ++ rest)
    → until_zero (drop b.pos b.bytes) ≡ length s
cstring_end b s rest h st =
    ap until_zero (st.ahead ∙ append_assoc s (0 ∷ []) rest) ∙ until_zero-append s rest h

pub read_cstring-Decodes : {s : Text} → IsName s → Decodes read_cstring (s ++ 0 ∷ []) s
unfolding read_cstring
read_cstring-Decodes {s} h = record {
  at = λ b rest st.
      let e = cstring_end b s rest h.no_zero st in
      let f = fits b (s ++ 0 ∷ []) rest st in
      let n = length-append s (0 ∷ []) in
      let q = slice-Stands b s (0 ∷ rest) (rw append_assoc at st) in
      rw (e, lt→leb_false (length b.bytes) (b.pos + length s) (omega arith), q, h.utf8, n);
}
