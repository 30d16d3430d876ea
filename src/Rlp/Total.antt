-- ===== src/Rlp/Total.antt =====
-- The decoder ends on every input within its fuel, and never reads past the end.
use ethereum_blockchain.Prelude.{
  ℕ, zero, suc, ◌+◌, ◌-◌, ◌*◌, ◌<◌, ◌≤◌, ◌≡◌, ◌≢◌, refl, Option-cases, inl, inr, Bool-cases, arith,
  Bool, true, false, ltb, leb, ◌==◌, if◌then◌else◌, length, get_elem?, lt_of_get_elem?,
}
use ethereum_blockchain.Bytes.{Bytes}
use ethereum_blockchain.Rlp.Encode.{Item, Items, list}
use ethereum_blockchain.Rlp.Decode.{
  Error, Result, ok, err, ◌>>=◌, out_of_fuel, decode_string, decode_length, decode_long_string,
  decode_item, decode_list, decode_items, rlp_decode, long_string_exceeds, string_exceeds,
  length_of_length_exceeds, list_length_of_length_exceeds,
}

-- The call kept within its fuel, and what it read ends after `o` and within the input.
abbrev pub ReadsWithin : Bytes → ℕ → Result (Item × ℕ) → Type 0
ReadsWithin bs o (ok (x, o')) = (o < o') × (o' ≤ length bs)
ReadsWithin bs o (err e) = e ≢ out_of_fuel

abbrev Ends : {A : Type 0} → Result A → Type 0
Ends (ok a) = Unit
Ends (err e) = e ≢ out_of_fuel

ReadsWithin-Ends : (bs : Bytes) (o : ℕ) (r : Result (Item × ℕ)) → ReadsWithin bs o r → Ends r
ReadsWithin-Ends bs o (ok p) h = tt
ReadsWithin-Ends bs o (err e) h = h

module _ (bs : Bytes) where
  decode_string-Within :
      (o start n : ℕ) (e : Error)
      → o < start
      → e ≢ out_of_fuel
      → ReadsWithin bs o (decode_string bs start n e)
  unfolding decode_string
  decode_string-Within o start n e lt ne = elim (Bool-cases (ltb (length bs) (start + n))) [
    | inl long ↦ rw long ne
    | inr fits ↦ rw fits (omega arith, ground arith)
  ]

  decode_length-Ends :
      (start n : ℕ) (e : Error) → e ≢ out_of_fuel → Ends (decode_length bs start n e)
  unfolding decode_length
  decode_length-Ends start n e ne = elim (Bool-cases (ltb (length bs) (start + n))) [
    | inl long ↦ rw long ne
    | inr fits ↦ rw fits tt
  ]

  >>=-Within :
      {A : Type 0} (o : ℕ) (r : Result A) (k : A → Result (Item × ℕ))
      → Ends r
      → ((a : A) → ReadsWithin bs o (k a))
      → ReadsWithin bs o (r >>= k)
  >>=-Within o (ok a) k h next = next a
  >>=-Within o (err e) k h next = h

  decode_long_string-Within :
      (o start n : ℕ) → o < start → ReadsWithin bs o (decode_long_string bs start n)
  unfolding decode_long_string
  decode_long_string-Within o start n lt =
      >>=-Within o (decode_length bs start n length_of_length_exceeds) _
        (decode_length-Ends start n _ cc)
        λ len. decode_string-Within o (start + n) len long_string_exceeds (omega arith) cc

  Ends-Within :
      (o : ℕ) (r : Result Items) (end : ℕ)
      → o < end
      → end ≤ length bs
      → Ends r
      → ReadsWithin bs o (r >>= λ xs. ok (list xs, end))
  Ends-Within o (ok xs) end lt le h = (lt, le)
  Ends-Within o (err e) end lt le h = h

  if-Within :
      (o : ℕ) (b : Bool) (x y : Result (Item × ℕ))
      → (b ≡ true → ReadsWithin bs o x)
      → (b ≡ false → ReadsWithin bs o y)
      → ReadsWithin bs o (if b then x else y)
  if-Within o true x y hx hy = hx refl
  if-Within o false x y hx hy = hy refl

Ends-ne : {A : Type 0} {r : Result A} → Ends r → r ≢ err out_of_fuel
Ends-ne {A} {r} h e = rw e at h refl

Ends-bind :
    {A B : Type 0} (r : Result A) (k : A → Result B)
    → Ends r
    → ((a : A) → Ends (k a))
    → Ends (r >>= k)
Ends-bind (ok a) k h next = next a
Ends-bind (err e) k h next = h

Within-bind :
    {B : Type 0} (bs : Bytes) (o : ℕ) (r : Result (Item × ℕ)) (k : Item × ℕ → Result B)
    → ReadsWithin bs o r
    → ((x : Item) (o' : ℕ) → o < o' → o' ≤ length bs → Ends (k (x, o')))
    → Ends (r >>= k)
Within-bind bs o (ok (x, o')) k h next = next x o' h.0 h.1
Within-bind bs o (err e) k h next = h

mutual
  unfolding decode_item

  item_within :
      (f : ℕ) (bs : Bytes) (o : ℕ) → 3 * (length bs - o) < f → ReadsWithin bs o (decode_item f bs o)
  item_within zero bs o fuel = absurd (omega arith)
  item_within (suc f) bs o fuel = elim (Option-cases (get_elem? bs o)) [
    | inl past ↦ rw (past, decode_item) (λ e. cc)
    | inr (p, e) ↦
        let inside = lt_of_get_elem? bs o e in
        rw (e, decode_item)
          (if-Within bs o (ltb p 0x80) _ _ (λ _. (omega arith, omega arith))
            λ _.
              if-Within bs o (leb p 0xb7) _ _
                (λ _. decode_string-Within bs o (o + 1) (p - 0x80) string_exceeds (omega arith) cc)
                λ _.
                  if-Within bs o (leb p 0xbf) _ _
                    (λ _. decode_long_string-Within bs o (o + 1) (p - 0xb7) (omega arith))
                    λ _.
                      if-Within bs o (leb p 0xf7) _ _
                        (λ _. list_within f bs (o + 1) (p - 0xc0) o (omega arith) (omega arith))
                        λ _.
                          >>=-Within bs o
                            (decode_length bs (o + 1) (p - 0xf7) list_length_of_length_exceeds) _
                            (decode_length-Ends bs (o + 1) (p - 0xf7) _ cc)
                            λ n.
                              list_within f bs (o + 1 + (p - 0xf7)) n o (omega arith) (omega arith))
  ]

  list_within :
      (f : ℕ) (bs : Bytes) (start list_len o : ℕ)
      → o < start
      → 3 * (length bs - start) + 2 < f
      → ReadsWithin bs o (decode_list f bs start list_len)
  list_within zero bs start list_len o lt fuel = absurd (omega arith)
  list_within (suc f) bs start list_len o lt fuel =
      if-Within bs o (ltb (length bs) (start + list_len)) _ _ (λ _ e. cc)
        λ fits.
          let end : start + list_len ≤ length bs = ground arith in
          Ends-Within bs o (decode_items f bs start (start + list_len)) (start + list_len)
            (omega arith) end (items_end f bs start (start + list_len) (omega arith))

  items_end :
      (f : ℕ) (bs : Bytes) (pos end : ℕ)
      → 3 * (length bs - pos) + 1 < f
      → Ends (decode_items f bs pos end)
  items_end zero bs pos end fuel = absurd (omega arith)
  items_end (suc f) bs pos end fuel = elim (Bool-cases (ltb pos end)) [
    | inl more ↦ rw more (
        Within-bind bs pos (decode_item f bs pos) _ (item_within f bs pos (omega arith))
          λ x o' lt le.
            Ends-bind (decode_items f bs o' end) _ (items_end f bs o' end (omega arith)) λ xs. tt)
    | inr done ↦ elim (Bool-cases (pos == end)) [
      | inl e ↦ rw (done, e) tt
      | inr e ↦ rw (done, e) (λ e. cc)
    ]
  ]

-- But for Python's limit on nested calls, which the model leaves out, the decoder ends on every
-- input with an item or one of its ValueErrors: the fuel of rlp_decode is enough. With that fuel,
-- at whatever offset decode_item is called, an item that it returns ends after that offset and
-- within the input.
pub rlp_decode-total :
    (bs : Bytes)
    → (rlp_decode bs ≢ err out_of_fuel)
      × ((o : ℕ) → ReadsWithin bs o (decode_item (3 * length bs + 3) bs o))
unfolding rlp_decode
rlp_decode-total bs = (
  λ e.
      Ends-ne
        (Within-bind bs 0 (decode_item (3 * length bs + 3) bs 0) _
          (item_within (3 * length bs + 3) bs 0 (omega arith)) λ x o' lt le. ground arith)
        e,
  λ o. item_within (3 * length bs + 3) bs o (omega arith),
)
