-- ===== src/Borsh/Laws.antt =====
-- What a codec promises, what borsh documents of its own, and that structs keep it.
use external_signature_progr.Base.{
  ℕ, zero, suc, ◌^◌, ◌<◌, List, [], ◌∷◌, ◌++◌, append_assoc, Option, none, some, Bytes, length,
  le_bytes, ◌≡◌, refl, ap, ◌∙◌, ◌⊎◌, inl, ◌↔◌, All,
}
use external_signature_progr.Borsh.{Codec, Borsh, ◌>>=◌, fields, derive, write_all, read_all}
use mathlib.Core.Path.{subst}

-- `a` has an encoding that reads back as `a` and leaves whatever follows it.
abbrev pub RoundTrips : {A : Type 0} → Codec A → A → Type 0
RoundTrips c a =
    (w : Bytes) × (c.write a ≡ some w) × ((rest : Bytes) → c.read (w ++ rest) ≡ some (a, rest))

-- What is read can be written, and the hooks for whole vectors agree with the loops.
pub record IsCodec {A : Type 0} (c : Codec A) : Type 0 where
  pub rewrites : (bs : Bytes) (a : A) (rest : Bytes) → c.read bs ≡ some (a, rest) → RoundTrips c a
  pub slice_agrees : (xs : List A) → (c.u8_slice xs ≡ none) ⊎ (c.u8_slice xs ≡ write_all c xs)
  pub vec_agrees :
      (n : ℕ) (bs : Bytes)
      → (c.vec_from_reader n bs ≡ some (none, bs))
        ⊎ (c.vec_from_reader n bs ≡ (read_all c n bs >>= λ p. some (some p.0, p.1)))

-- The documented format: integers are little-endian, an array is its bytes, an option is a tag and
-- its value, and `try_from_slice` reads the whole slice or fails.
pub record IsBorsh (b : Borsh) : Type 1 where
  pub int-IsCodec : (w : ℕ) → IsCodec (b.int w)
  pub int_writes : (w v : ℕ) → v < 256 ^ w → (b.int w).write v ≡ some (le_bytes w v)
  pub int_reads :
      (w v : ℕ) (rest : Bytes)
      → v < 256 ^ w
      → (b.int w).read (le_bytes w v ++ rest) ≡ some (v, rest)
  pub int_range :
      (w : ℕ) (bs : Bytes) (v : ℕ) (rest : Bytes) → (b.int w).read bs ≡ some (v, rest) → v < 256 ^ w
  pub array-IsCodec : (n : ℕ) → IsCodec (b.array n)
  pub array_writes : (n : ℕ) (a : Bytes) → length a ≡ n → (b.array n).write a ≡ some a
  pub array_reads :
      (n : ℕ) (a rest : Bytes) → length a ≡ n → (b.array n).read (a ++ rest) ≡ some (a, rest)
  pub array_range :
      (n : ℕ) (bs a rest : Bytes) → (b.array n).read bs ≡ some (a, rest) → length a ≡ n
  pub option-IsCodec : (A : Type 0) (c : Codec A) → IsCodec c → IsCodec (b.option A c)
  pub option_none : (A : Type 0) (c : Codec A) → RoundTrips (b.option A c) none
  pub option_writes_none : (A : Type 0) (c : Codec A) → (b.option A c).write none ≡ some (0 ∷ [])
  pub option_writes_some :
      (A : Type 0) (c : Codec A) (a : A) (w : Bytes)
      → c.write a ≡ some w
      → (b.option A c).write (some a) ≡ some (1 ∷ w)
  pub option_some :
      (A : Type 0) (c : Codec A) (a : A) → RoundTrips c a → RoundTrips (b.option A c) (some a)
  pub option_range :
      (A : Type 0) (c : Codec A) (bs : Bytes) (a : A) (rest : Bytes)
      → (b.option A c).read bs ≡ some (some a, rest)
      → (mid : Bytes) × (c.read mid ≡ some (a, rest))
  pub exact :
      (A : Type 0) (c : Codec A) (bs : Bytes) (a : A)
      → (b.try_from_slice A c bs ≡ some a) ↔ (c.read bs ≡ some (a, []))

pub int-RoundTrips : (b : Borsh) → IsBorsh b → (w v : ℕ) → v < 256 ^ w → RoundTrips (b.int w) v
int-RoundTrips b h w v lt = (le_bytes w v, h.int_writes w v lt, λ rest. h.int_reads w v rest lt)

pub array-RoundTrips :
    (b : Borsh) → IsBorsh b → (n : ℕ) (a : Bytes) → length a ≡ n → RoundTrips (b.array n) a
array-RoundTrips b h n a e = (a, h.array_writes n a e, λ rest. h.array_reads n a rest e)

pub >>=-eq-some :
    {A B : Type 0} (m : Option A) (f : A → Option B) {b : B}
    → (m >>= f) ≡ some b
    → (a : A) × (m ≡ some a) × (f a ≡ some b)
>>=-eq-some none f h = cc
>>=-eq-some (some a) f h = (a, refl, h)

pub some-injective : {A : Type 0} (a b : A) → some a ≡ some b → a ≡ b
some-injective a b h = cc

module _ {A B : Type 0} (c : Codec A) (d : Codec B) where
  -- What a struct's codec reads, each field's codec has read in turn.
  pub fields_reads :
      (bs : Bytes) (p : A × B) (rest : Bytes)
      → (fields c d).read bs ≡ some (p, rest)
      → (mid : Bytes) × (c.read bs ≡ some (p.0, mid)) × (d.read mid ≡ some (p.1, rest))
  unfolding fields
  fields_reads bs p rest e =
      let (q, first, k) = >>=-eq-some (c.read bs) _ e in
      let (r, second, k') = >>=-eq-some (d.read q.1) _ k in
      let same : ((q.0, r.0), r.1) ≡ (p, rest) = some-injective _ _ k' in
      (q.1, first ∙ ap (λ t. some (t.0.0, q.1)) same, second ∙ ap (λ t. some (t.0.1, t.1)) same)

  pub fields-RoundTrips :
      (a : A) (b : B) → RoundTrips c a → RoundTrips d b → RoundTrips (fields c d) (a, b)
  unfolding fields
  fields-RoundTrips a b (v, wv, rv) (w, ww, rw') =
      (v ++ w, rw (wv, ww), λ rest. rw (append_assoc, rv, rw'))

  fields_rewrites :
      (bs : Bytes) (p : A × B) (rest : Bytes)
      → IsCodec c
      → IsCodec d
      → (fields c d).read bs ≡ some (p, rest)
      → RoundTrips (fields c d) p
  unfolding fields
  fields_rewrites bs p rest hc hd e =
      let ((a, mid), ra, e') = >>=-eq-some (c.read bs) _ e in
      let ((b, rest'), rb, e'') = >>=-eq-some (d.read mid) _ e' in
      let same : (a, b) ≡ p = cc in
      subst (RoundTrips (fields c d)) same
        (fields-RoundTrips a b (hc.rewrites bs a mid ra) (hd.rewrites mid b rest' rb))

  pub fields-IsCodec : IsCodec c → IsCodec d → IsCodec (fields c d)
  unfolding fields
  fields-IsCodec hc hd = record {
    rewrites = λ bs p rest e. fields_rewrites bs p rest hc hd e;
    slice_agrees = λ xs. inl refl;
    vec_agrees = λ n bs. inl refl;
  }

module _ {A B : Type 0} (make : A → B) (parts : B → A) (c : Codec A) where
  pub derive_reads :
      (bs : Bytes) (b : B) (rest : Bytes)
      → (derive make parts c).read bs ≡ some (b, rest)
      → (a : A) × (c.read bs ≡ some (a, rest)) × (make a ≡ b)
  unfolding derive
  derive_reads bs b rest e =
      let (q, first, k) = >>=-eq-some (c.read bs) _ e in
      let same : (make q.0, q.1) ≡ (b, rest) = some-injective _ _ k in
      (q.0, first ∙ ap (λ t. some (q.0, t.1)) same, ap (λ t. t.0) same)

  pub derive-RoundTrips :
      (a : A) → parts (make a) ≡ a → RoundTrips c a → RoundTrips (derive make parts c) (make a)
  unfolding derive
  derive-RoundTrips a e (w, ww, rr) = (w, rw (e, ww), λ rest. rw rr)

  derive_rewrites :
      (bs : Bytes) (b : B) (rest : Bytes)
      → ((a : A) → parts (make a) ≡ a)
      → IsCodec c
      → (derive make parts c).read bs ≡ some (b, rest)
      → RoundTrips (derive make parts c) b
  unfolding derive
  derive_rewrites bs b rest h hc e =
      let ((a, rest'), ra, e') = >>=-eq-some (c.read bs) _ e in
      let same : make a ≡ b = cc in
      subst (RoundTrips (derive make parts c)) same
        (derive-RoundTrips a (h a) (hc.rewrites bs a rest' ra))

  pub derive-IsCodec : ((a : A) → parts (make a) ≡ a) → IsCodec c → IsCodec (derive make parts c)
  unfolding derive
  derive-IsCodec e hc = record {
    rewrites = λ bs b rest r. derive_rewrites bs b rest e hc r;
    slice_agrees = λ xs. inl refl;
    vec_agrees = λ n bs. inl refl;
  }

-- A list round-trips item by item.
module _ {A : Type 0} (c : Codec A) where
  pub write_all-read_all :
      (xs : List A)
      → All (RoundTrips c) xs
      → (w : Bytes) × (write_all c xs ≡ some w)
        × ((rest : Bytes) → read_all c (length xs) (w ++ rest) ≡ some (xs, rest))
  unfolding write_all read_all
  write_all-read_all [] h = ([], refl, λ rest. refl)
  write_all-read_all (x ∷ xs) ((v, wv, rv), hs) =
      let (w, ww, rw') = write_all-read_all xs hs in
      (v ++ w, rw (wv, ww), λ rest. rw (append_assoc, rv, rw'))

  -- What the loop reads has the length asked for, and each item can be written.
  pub read_all_items :
      (n : ℕ) (bs : Bytes) (xs : List A) (rest : Bytes)
      → IsCodec c
      → read_all c n bs ≡ some (xs, rest)
      → (length xs ≡ n) × All (RoundTrips c) xs
  unfolding read_all
  read_all_items zero bs [] rest h e = (refl, tt)
  read_all_items zero bs (x ∷ xs) rest h e = cc
  read_all_items (suc n) bs xs rest h e =
      let ((y, mid), ry, e') = >>=-eq-some (c.read bs) _ e in
      let ((ys, rest'), rys, e'') = >>=-eq-some (read_all c n mid) _ e' in
      let (len, items) = read_all_items n mid ys rest' h rys in
      let same : y ∷ ys ≡ xs = cc in
      subst (λ l. (length l ≡ suc n) × All (RoundTrips c) l) same
        (ap suc len, (h.rewrites bs y mid ry, items))
