-- ===== src/Message/Errors.antt =====
-- The error paths of pack.hpp and unpack.hpp of include/ipmid/message/.
use phosphor_host_ipmid.Prelude.{
  ℕ, zero, suc, ◌+◌, ◌*◌, ◌≤◌, ◌<◌, ◌≡◌, ◌↔◌, refl, sym, ap, ◌∙◌, arith, Bool, true, false, List,
  [], ◌∷◌, length, lt→ltb, get_or, Option, none, some, dec_lt,
}
use phosphor_host_ipmid.Message.Payload.{Payload, pop_bits, pop, fill_loop, fill_bits, fill_byte}
use phosphor_host_ipmid.Message.Payload.Reader.{remaining, Reading, bits_left, fill_bits_short}
use phosphor_host_ipmid.Message.Item.{
  Item, Items, cons, Ty, Tys, array, vector, text, tuple_ty, text_ty, uint_ty, fixed_ty, flag_ty,
  bitset_ty, optional_ty, array_ty, byte_array_ty, bytes_ty, payload_ty, nil_ty, cons_ty,
}
use phosphor_host_ipmid.Message.Pack.{pack_single, pack_text}
use phosphor_host_ipmid.Message.Unpack.{
  Outcome, ok, failed, fault, unpack_bits, take_bits, unpack_uint, unpack_bytes_unaligned,
  unpack_text, unpack_byte_array, unpack_raw, unpack_array, unpack_single, unpack, with_unaligned,
  as_item, atomically, optionally, and_more, then_unpack, text_range,
}
use phosphor_host_ipmid.Message.Unpack.Fields.{unpack_bits-Reads}

-- No read writes to the bytes of the message.
fill_loop-raw : (fuel count : ℕ) (p : Payload) → (fill_loop fuel count p).1.raw ≡ p.raw
unfolding fill_loop
fill_loop-raw zero count p = refl
fill_loop-raw (suc fuel) count p = ground (arith, fill_loop-raw fuel count (fill_byte p))

fill_bits-raw : (count : ℕ) (p : Payload) → (fill_bits count p).1.raw ≡ p.raw
unfolding fill_bits
fill_bits-raw count p = ground (arith, fill_loop-raw count count p)

pop_bits-raw : (count : ℕ) (p : Payload) → (pop_bits count p).1.raw ≡ p.raw
unfolding pop_bits
pop_bits-raw count p = ground arith

take_bits-raw : (n : ℕ) (m : Bool × Payload) → (take_bits n m).1.raw ≡ m.1.raw
take_bits-raw n (true, p) = refl
take_bits-raw n (false, p) = refl

unaligned-raw : (w k i : ℕ) (p : Payload) → (unpack_bytes_unaligned w k i p).1.raw ≡ p.raw
unfolding unpack_bytes_unaligned
unaligned-raw zero k i p = refl
unaligned-raw (suc w) k i p = unaligned-raw w (k + 1) _ _ ∙ pop_bits-raw 8 p

with_unaligned-raw : (n : ℕ) (m : Bool × Payload) → (with_unaligned n m).1.raw ≡ m.1.raw
with_unaligned-raw n (true, p) = refl
with_unaligned-raw n (false, p) = unaligned-raw n 0 0 p

unpack_uint-raw : (n : ℕ) (p : Payload) → (unpack_uint n p).1.raw ≡ p.raw
unfolding unpack_uint
unpack_uint-raw n p =
    ground (arith, with_unaligned-raw n (fill_bits (8 * n) p), fill_bits-raw (8 * n) p)

text_range-raw : (m : Option (List ℕ) × Payload) → (text_range m).1.raw ≡ m.1.raw
text_range-raw (none, p) = refl
text_range-raw (some [], p) = refl
text_range-raw (some (c ∷ cs), p) = refl

pop-raw : (n : ℕ) (p : Payload) → (pop n p).1.raw ≡ p.raw
unfolding pop
pop-raw n p = ground arith

unpack_text-raw : (p : Payload) → (unpack_text p).1.raw ≡ p.raw
unfolding unpack_text
unpack_text-raw p =
    let q = pop (get_or p.raw p.raw_index 0) (record p { raw_index = p.raw_index + 1 }) in
    ground (
      arith,
      text_range-raw q,
      pop-raw (get_or p.raw p.raw_index 0) (record p { raw_index = p.raw_index + 1 }),
    )

as_item-raw {ℓ} :
    {A : Type ℓ} (f : A → Item) (m : Outcome A × Payload) → (as_item f m).1.raw ≡ m.1.raw
as_item-raw f m = refl

atomically-raw :
    (p : Payload) (m : Outcome Items × Payload) → m.1.raw ≡ p.raw → (atomically p m).1.raw ≡ p.raw
atomically-raw p (ok ts, q) e = e
atomically-raw p (failed, q) e = e
atomically-raw p (fault, q) e = e

optionally-raw :
    (p : Payload) (m : Outcome Item × Payload) → m.1.raw ≡ p.raw → (optionally p m).1.raw ≡ p.raw
optionally-raw p (ok t, q) e = e
optionally-raw p (failed, q) e = e
optionally-raw p (fault, q) e = e

and_more-raw :
    (p prior : Payload) (m : Outcome Item × Payload) (rest : Payload → Outcome Items × Payload)
    → m.1.raw ≡ p.raw
    → ((q : Payload) → (rest q).1.raw ≡ q.raw)
    → (and_more prior m rest).1.raw ≡ p.raw
and_more-raw p prior (ok t, q) rest e r = r q ∙ e
and_more-raw p prior (failed, q) rest e r = e
and_more-raw p prior (fault, q) rest e r = e

then_unpack-raw :
    (p : Payload) (m : Outcome Item × Payload) (rest : Payload → Outcome Items × Payload)
    → m.1.raw ≡ p.raw
    → ((q : Payload) → (rest q).1.raw ≡ q.raw)
    → (then_unpack m rest).1.raw ≡ p.raw
then_unpack-raw p (ok t, q) rest e r = r q ∙ e
then_unpack-raw p (failed, q) rest e r = e
then_unpack-raw p (fault, q) rest e r = e

unpack_array-raw :
    (op : Payload → Outcome Item × Payload) (prior : Payload)
    → ((p : Payload) → (op p).1.raw ≡ p.raw)
    → (n : ℕ) (p : Payload) → (unpack_array op prior n p).1.raw ≡ p.raw
unfolding unpack_array
unpack_array-raw op prior h zero p = refl
unpack_array-raw op prior h (suc n) p =
    and_more-raw p prior (op p) (unpack_array op prior n) (h p) (unpack_array-raw op prior h n)

unpack_bits-raw : (n : ℕ) (p : Payload) → (unpack_bits n p).1.raw ≡ p.raw
unfolding unpack_bits
unpack_bits-raw n p = take_bits-raw n (fill_bits n p) ∙ fill_bits-raw n p

unpack_byte_array-raw : (n : ℕ) (p : Payload) → (unpack_byte_array n p).1.raw ≡ p.raw
unfolding unpack_byte_array
unpack_byte_array-raw n p = ground arith

mutual
  unfolding unpack_single unpack unpack_raw

  single-raw : (t : Ty) (p : Payload) → (unpack_single t p).1.raw ≡ p.raw
  single-raw (uint_ty n) p = unpack_uint-raw n p
  single-raw (fixed_ty n) p = unpack_bits-raw n p
  single-raw flag_ty p = unpack_bits-raw 1 p
  single-raw (bitset_ty n) p = unpack_bits-raw n p
  single-raw text_ty p = unpack_text-raw p
  single-raw (optional_ty t) p = optionally-raw p (unpack_single t p) (single-raw t p)
  single-raw (array_ty n t) p = unpack_array-raw (unpack_single t) p (single-raw t) n p
  single-raw (byte_array_ty n) p = unpack_byte_array-raw n p
  single-raw bytes_ty p = refl
  single-raw (tuple_ty ts) p = atomically-raw p (unpack ts p) (all-raw ts p)
  single-raw payload_ty p = refl

  all-raw : (ts : Tys) (p : Payload) → (unpack ts p).1.raw ≡ p.raw
  all-raw nil_ty p = refl
  all-raw (cons_ty t ts) p =
      then_unpack-raw p (unpack_single t p) (unpack ts) (single-raw t p) (all-raw ts)

atomically-restores :
    (p : Payload) (m : Outcome Items × Payload)
    → m.1.raw ≡ p.raw
    → (atomically p m).0 ≡ failed
    → (remaining (atomically p m).1 ≡ remaining p)
      × ((atomically p m).1.unpack_error ≡ p.unpack_error)
atomically-restores p (ok ts, q) e h = cc
atomically-restores p (failed, q) e h =
    (ap (λ (raw : List ℕ). remaining (record p { raw = raw })) e, refl)
atomically-restores p (fault, q) e h = cc

-- A tuple that cannot be unpacked, whatever its types are and wherever in it the failure is, takes
-- nothing: the bits that are left and the error mark are those from before.
pub unpack_tuple-restores :
    (ts : Tys) (p : Payload)
    → (unpack_single (tuple_ty ts) p).0 ≡ failed
    → let q = (unpack_single (tuple_ty ts) p).1 in
      (remaining q ≡ remaining p) × (q.unpack_error ≡ p.unpack_error)
unfolding unpack_single
unpack_tuple-restores ts p h = atomically-restores p (unpack ts p) (all-raw ts p) h

ok_not_failed : (v : ℕ) → ok v ≡ failed → ⊥
ok_not_failed v e = cc

take_bits-failed : (n : ℕ) (m : Bool × Payload) → m.0 ≡ true → (take_bits n m).0 ≡ failed
take_bits-failed n (true, p) e = refl
take_bits-failed n (false, p) e = cc

-- A field of up to 64 bits fails exactly when the message has fewer bits left.
pub unpack_bits-failed_iff :
    (n : ℕ) (p : Payload) → Reading p → n ≤ 64 → ((unpack_bits n p).0 ≡ failed) ↔ (bits_left p < n)
unfolding unpack_bits
unpack_bits-failed_iff n p h small =
    (few, λ short. take_bits-failed n (fill_bits n p) (fill_bits_short n p h short))
  where
    few : (unpack_bits n p).0 ≡ failed → bits_left p < n
    few e = elim (dec_lt (bits_left p) n) [
      | yes short ↦ short
      | no enough ↦
          let (v, q, run, r) = unpack_bits-Reads n p h small (omega arith) in
          absurd (ok_not_failed v (sym (ap (λ (m : Outcome ℕ × Payload). m.0) run) ∙ e))
    ]

-- An array or a vector whose next item is a string of more than 255 characters packs nothing from
-- there on, and still returns 0; the string by itself returns 1.
pub pack_array-hides_error :
    (s : List ℕ) (xs : Items) (p : Payload)
    → 255 < length s
    → (pack_single (text s) p ≡ (1, p))
      × (pack_single (array (cons (text s) xs)) p ≡ (0, p))
      × (pack_single (vector (cons (text s) xs)) p ≡ (0, p))
unfolding pack_single pack_text
pack_array-hides_error s xs p long = (
  rw (lt→ltb 255 (length s) long),
  rw (lt→ltb 255 (length s) long),
  rw (lt→ltb 255 (length s) long),
)
