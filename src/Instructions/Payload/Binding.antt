-- ===== src/Instructions/Payload/Binding.antt =====
-- What a passkey signs for an execution (src/instructions/execute_instructions.rs).
use external_signature_progr.Base.{
  ℕ, ◌%◌, ◌<◌, ◌≡◌, refl, ap, sym, ◌∙◌, List, [], ◌∷◌, ◌++◌, Bytes, Bool, length, take, drop,
  get_or, take-append, drop-append, append_assoc, All, arith,
}
use external_signature_progr.Borsh.{Borsh}
use external_signature_progr.Borsh.Laws.{RoundTrips}
use external_signature_progr.Errors.{ok}
use external_signature_progr.Errors.Laws.{>>=-eq-ok, ok-injective}
use external_signature_progr.Instructions.Payload.{
  bool_byte, accounts_payload, instructions_payload, nonce_payload, execute_payload,
}
use external_signature_progr.Instructions.Payload.Domains.{IsNonce, drop-nonce_payload}
use external_signature_progr.Runtime.{AccountInfo}
use external_signature_progr.Utils.Instructions.{CompiledInstruction, compiled_instruction_codec}
use external_signature_progr.Utils.Nonce.{NonceData}

abbrev first : Bytes → ℕ
first bs = get_or bs 0 0

nonce_payload-injective :
    (m n : NonceData) (r s : Bytes)
    → IsNonce m
    → IsNonce n
    → nonce_payload m r ≡ nonce_payload n s
    → (m ≡ n) × (r ≡ s)
nonce_payload-injective m n r s hm hn e =
    let hash : m.slothash ≡ n.slothash =
      sym (take-append 32 m.slothash _ hm.slothash_length)
      ∙ ap (take 32) e
      ∙ take-append 32 n.slothash _ hn.slothash_length in
    let tail : m.signer_key ++ r ≡ n.signer_key ++ s =
      sym (drop-append 32 m.slothash _ hm.slothash_length)
      ∙ ap (drop 32) e
      ∙ drop-append 32 n.slothash _ hn.slothash_length in
    let key : m.signer_key ≡ n.signer_key =
      sym (take-append 32 m.signer_key r hm.signer_key_length)
      ∙ ap (take 32) tail
      ∙ take-append 32 n.signer_key s hn.signer_key_length in
    (cc, sym (drop-nonce_payload m r hm) ∙ ap (drop 64) e ∙ drop-nonce_payload n s hn)

bool_byte-injective : (a b : Bool) → bool_byte a ≡ bool_byte b → a ≡ b
bool_byte-injective a b e = ground arith

abbrev HasKey : AccountInfo → Type 0
HasKey a = length a.key ≡ 32

one_account :
    (a a' : AccountInfo) (r s : Bytes)
    → HasKey a
    → HasKey a'
    → a.key ++ (bool_byte a.is_signer ∷ (bool_byte a.is_writable ∷ r))
      ≡ a'.key ++ (bool_byte a'.is_signer ∷ (bool_byte a'.is_writable ∷ s))
    → (a ≡ a') × (r ≡ s)
one_account a a' r s h h' e =
    let key : a.key ≡ a'.key =
      sym (take-append 32 a.key _ h) ∙ ap (take 32) e ∙ take-append 32 a'.key _ h' in
    let tail = sym (drop-append 32 a.key _ h) ∙ ap (drop 32) e ∙ drop-append 32 a'.key _ h' in
    let signer = bool_byte-injective a.is_signer a'.is_signer (ap first tail) in
    let writable =
      bool_byte-injective a.is_writable a'.is_writable
        (ap (λ (l : Bytes). first (drop 1 l)) tail) in
    (cc, ap (drop 2) tail)

-- Equally many accounts with 32-byte keys are read off one by one.
accounts_payload-injective :
    (xs ys : List AccountInfo) (r s : Bytes)
    → All HasKey xs
    → All HasKey ys
    → length xs ≡ length ys
    → accounts_payload xs ++ r ≡ accounts_payload ys ++ s
    → (xs ≡ ys) × (r ≡ s)
unfolding accounts_payload
accounts_payload-injective [] [] r s hx hy l e = (refl, e)
accounts_payload-injective [] (y ∷ ys) r s hx hy l e = absurd (omega arith)
accounts_payload-injective (x ∷ xs) [] r s hx hy l e = absurd (omega arith)
accounts_payload-injective (x ∷ xs) (y ∷ ys) r s (kx, hx) (ky, hy) l e =
    let (head, tail) =
      one_account x y (accounts_payload xs ++ r) (accounts_payload ys ++ s) kx ky
        (sym (append_assoc x.key _ r) ∙ e ∙ append_assoc y.key _ s) in
    let (rest, after) = accounts_payload-injective xs ys r s hx hy (omega arith) tail in (cc, after)

module _ (b : Borsh) where
  -- An instruction of the list is one that borsh can write and read back.
  abbrev pub IsWritable : CompiledInstruction → Type 0
  IsWritable = RoundTrips (compiled_instruction_codec b)

  instructions_payload-injective :
      (xs ys : List CompiledInstruction) (u : Bytes)
      → All IsWritable xs
      → All IsWritable ys
      → length xs ≡ length ys
      → instructions_payload b xs ≡ ok u
      → instructions_payload b ys ≡ ok u
      → xs ≡ ys
  unfolding instructions_payload
  instructions_payload-injective [] [] u hx hy l ex ey = refl
  instructions_payload-injective [] (y ∷ ys) u hx hy l ex ey = absurd (omega arith)
  instructions_payload-injective (x ∷ xs) [] u hx hy l ex ey = absurd (omega arith)
  instructions_payload-injective (x ∷ xs) (y ∷ ys) u ((w, ww, rr), hx) ((v, wv, rv), hy) l ex ey =
      let (xs_bytes, fx, gx) = >>=-eq-ok (instructions_payload b xs) _ (rw ww at ex) in
      let (ys_bytes, fy, gy) = >>=-eq-ok (instructions_payload b ys) _ (rw wv at ey) in
      let same : w ++ xs_bytes ≡ v ++ ys_bytes = ok-injective _ u gx ∙ sym (ok-injective _ u gy) in
      let both = sym (rr xs_bytes) ∙ ap ((compiled_instruction_codec b).read) same ∙ rv ys_bytes in
      let head : x ≡ y = cc both in
      let tail : xs_bytes ≡ ys_bytes = cc both in
      let rest =
        instructions_payload-injective xs ys xs_bytes hx hy (omega arith) fx
          (fy ∙ ap ok (sym tail)) in
      cc

  -- The lists of an execution: fewer than 256 accounts with 32-byte keys, and fewer than 256
  -- instructions, each of which borsh can write and read back.
  pub record IsExecution (accounts : List AccountInfo) (instructions : List CompiledInstruction)
      : Type 0 where
    pub few_accounts : length accounts < 256
    pub keys : All HasKey accounts
    pub few_instructions : length instructions < 256
    pub writable : All IsWritable instructions

  counted_injective :
      (xs ys : List AccountInfo) (is js : List CompiledInstruction) (u v : Bytes)
      → IsExecution xs is
      → IsExecution ys js
      → instructions_payload b is ≡ ok u
      → instructions_payload b js ≡ ok v
      → (length xs % 256) ∷ (accounts_payload xs ++ ((length is % 256) ∷ u))
        ≡ (length ys % 256) ∷ (accounts_payload ys ++ ((length js % 256) ∷ v))
      → (xs ≡ ys) × (is ≡ js)
  counted_injective xs ys is js u v hx hy ex ey e =
      let count : length xs % 256 ≡ length ys % 256 = ap first e in
      let (same, after) =
        accounts_payload-injective xs ys _ _ hx.keys hy.keys
          (omega (arith, hx.few_accounts, hy.few_accounts)) (ap (drop 1) e) in
      let number : length is % 256 ≡ length js % 256 = ap first after in
      let bytes : u ≡ v = ap (drop 1) after in
      (
        same,
        instructions_payload-injective is js u hx.writable hy.writable
            (omega (arith, hx.few_instructions, hy.few_instructions)) ex (ey ∙ ap ok (sym bytes)),
      )

  -- Two executions that sign for the same bytes are one execution: the nonce and its signer, the
  -- accounts with their flags in their order, and the instructions are the same. Nonces are two
  -- 32-byte strings; accounts and instructions are fewer than 256 each, with 32-byte keys, and
  -- borsh writes each instruction and reads it back.
  pub execute_payload-injective :
      (m n : NonceData) (xs ys : List AccountInfo) (is js : List CompiledInstruction)
      (payload : Bytes)
      → IsNonce m
      → IsNonce n
      → IsExecution xs is
      → IsExecution ys js
      → execute_payload b m xs is ≡ ok payload
      → execute_payload b n ys js ≡ ok payload
      → (m ≡ n) × (xs ≡ ys) × (is ≡ js)
  unfolding execute_payload
  execute_payload-injective m n xs ys is js payload hm hn hx hy ex ey =
      let (u, eu, fu) = >>=-eq-ok (instructions_payload b is) _ ex in
      let (v, ev, fv) = >>=-eq-ok (instructions_payload b js) _ ey in
      let (nonce, rest) =
        nonce_payload-injective m n _ _ hm hn
          (ok-injective _ payload fu ∙ sym (ok-injective _ payload fv)) in
      let (accounts, instructions) =
        counted_injective xs ys is js u v hx hy eu ev (ap (drop 20) rest) in
      (nonce, accounts, instructions)
