-- ===== src/Charge/Config.antt =====
-- The bytes of an ERC-20 mode `paymasterData`, and what is read back of them.
use open_allocator.Base.{
  ℕ, suc, All, ◌<◌, ◌≤◌, ◌+◌, ◌≡◌, refl, sym, ap, ◌∙◌, ◌/◌, Bool, true, false, some, [], ◌∷◌, ◌++◌,
  length, drop, length-append, ltb, Bool-cases, inl, inr, arith, if◌then◌else◌,
}
use open_allocator.Base.Text.{Bytes, to_hex}
use open_allocator.Base.Hex.{from_hex-to_hex}
use open_allocator.Base.Slices.{slice, from_bytes, slice-append_right, slice-append_first}
use open_allocator.Charge.{
  has_prefund, has_constant_fee, fee_start, read_fee, parse_data, parse_erc20_paymaster_data,
}

-- The fields in their order: the mode, the flags, the validity (12 bytes), the token, the `postOp` gas, the
-- rate, the gas limit with the treasury (36 bytes), the two optional amounts, and the signature.
pub record Fields : Type 0 where
  pub mode : ℕ
  pub flags : ℕ
  pub validity : Bytes
  pub token : Bytes
  pub post_op_gas : Bytes
  pub exchange_rate : Bytes
  pub treasury : Bytes
  pub prefund : Bytes
  pub constant_fee : Bytes
  pub signature : Bytes

abbrev after_rate : Fields → Bytes
after_rate f = f.treasury ++ (f.prefund ++ (f.constant_fee ++ f.signature))

abbrev config_of : Fields → Bytes
config_of f =
    (f.flags ∷ f.validity) ++ (f.token ++ (f.post_op_gas ++ (f.exchange_rate ++ after_rate f)))

abbrev pub laid : Fields → Bytes
laid f = f.mode ∷ config_of f

abbrev pub optional : Bool → ℕ
optional b = if b then 16 else 0

pub record IsLaid (f : Fields) : Type 0 where
  pub mode_erc20 : f.mode / 2 ≡ 1
  pub validity_length : length f.validity ≡ 12
  pub token_length : length f.token ≡ 20
  pub post_op_gas_length : length f.post_op_gas ≡ 16
  pub exchange_rate_length : length f.exchange_rate ≡ 32
  pub treasury_length : length f.treasury ≡ 36
  pub prefund_length : length f.prefund ≡ optional (has_prefund f.flags)
  pub constant_fee_length : length f.constant_fee ≡ optional (has_constant_fee f.flags)

ltb_no : {a b : ℕ} → b ≤ a → ltb a b ≡ false
ltb_no h = ground arith

length-eq-zero : (bs : Bytes) → length bs ≡ 0 → bs ≡ []
length-eq-zero [] h = refl
length-eq-zero (b ∷ bs) h = absurd (omega arith)

module _ (f : Fields) (h : IsLaid f) where
  length-config : length (config_of f) ≡ 117 + length (f.prefund ++ (f.constant_fee ++ f.signature))
  length-config = omega (
    arith,
    h.validity_length,
    h.token_length,
    h.post_op_gas_length,
    h.exchange_rate_length,
    h.treasury_length,
    length-append f.validity (f.token ++ (f.post_op_gas ++ (f.exchange_rate ++ after_rate f))),
    length-append f.token (f.post_op_gas ++ (f.exchange_rate ++ after_rate f)),
    length-append f.post_op_gas (f.exchange_rate ++ after_rate f),
    length-append f.exchange_rate (after_rate f),
    length-append f.treasury (f.prefund ++ (f.constant_fee ++ f.signature)),
  )

  token_at : slice 13 33 (config_of f) ≡ f.token
  token_at =
      slice-append_right 0 20 13 33 (f.flags ∷ f.validity) _ (omega (arith, h.validity_length))
        (omega (arith, h.validity_length))
      ∙ slice-append_first 20 f.token _ (sym h.token_length)

  -- What follows the token.
  slice-config :
      (a b i j : ℕ)
      → i ≡ 33 + a
      → j ≡ 33 + b
      → slice i j (config_of f) ≡ slice a b (f.post_op_gas ++ (f.exchange_rate ++ after_rate f))
  slice-config a b i j ei ej =
      slice-append_right (20 + a) (20 + b) i j (f.flags ∷ f.validity) _
        (omega (arith, h.validity_length)) (omega (arith, h.validity_length))
      ∙ slice-append_right a b (20 + a) (20 + b) f.token _ (omega (arith, h.token_length))
          (omega (arith, h.token_length))

  post_op_gas_at : slice 33 49 (config_of f) ≡ f.post_op_gas
  post_op_gas_at =
      slice-config 0 16 33 49 (omega arith) (omega arith)
      ∙ slice-append_first 16 f.post_op_gas _ (sym h.post_op_gas_length)

  exchange_rate_at : slice 49 81 (config_of f) ≡ f.exchange_rate
  exchange_rate_at =
      slice-config 16 48 49 81 (omega arith) (omega arith)
      ∙ slice-append_right 0 32 16 48 f.post_op_gas _ (omega (arith, h.post_op_gas_length))
          (omega (arith, h.post_op_gas_length))
      ∙ slice-append_first 32 f.exchange_rate _ (sym h.exchange_rate_length)

  slice-after :
      (a b i j : ℕ) → i ≡ 81 + a → j ≡ 81 + b → slice i j (config_of f) ≡ slice a b (after_rate f)
  slice-after a b i j ei ej =
      slice-config (48 + a) (48 + b) i j (omega arith) (omega arith)
      ∙ slice-append_right (32 + a) (32 + b) (48 + a) (48 + b) f.post_op_gas _
          (omega (arith, h.post_op_gas_length)) (omega (arith, h.post_op_gas_length))
      ∙ slice-append_right a b (32 + a) (32 + b) f.exchange_rate _
          (omega (arith, h.exchange_rate_length)) (omega (arith, h.exchange_rate_length))

  fee_at :
      has_constant_fee f.flags ≡ true
      → slice (fee_start f.flags) (fee_start f.flags + 16) (config_of f) ≡ f.constant_fee
  fee_at p =
      let start : fee_start f.flags ≡ 117 + length f.prefund = ground (arith, h.prefund_length) in
      let size : length f.constant_fee ≡ 16 = ground (arith, h.constant_fee_length) in
      slice-after (36 + length f.prefund) (36 + length f.prefund + 16) _ _ (omega arith)
        (omega arith)
      ∙ slice-append_right (length f.prefund) (length f.prefund + 16) _ _ f.treasury _
          (omega (arith, h.treasury_length)) (omega (arith, h.treasury_length))
      ∙ slice-append_right 0 16 _ _ f.prefund _ (omega arith) (omega arith)
      ∙ slice-append_first 16 f.constant_fee _ (sym size)

  read_fee-laid : read_fee f.flags (config_of f) ≡ some (from_bytes f.constant_fee)
  unfolding read_fee
  read_fee-laid = elim (Bool-cases (has_constant_fee f.flags)) [
    | inl p ↦
        let start : fee_start f.flags ≡ 117 + length f.prefund = ground (arith, h.prefund_length) in
        let size : length f.constant_fee ≡ 16 = ground (arith, h.constant_fee_length) in
        let long : ltb (length (config_of f)) (fee_start f.flags + 16) ≡ false = ltb_no (
          omega (
            arith,
            length-config,
            length-append f.prefund (f.constant_fee ++ f.signature),
            length-append f.constant_fee f.signature,
          )) in
        rw (p, long) (ap (λ bs. some (from_bytes bs)) (fee_at p))
    | inr p ↦
        let size : length f.constant_fee ≡ 0 = ground (arith, h.constant_fee_length) in
        rw p (ap (λ bs. some (from_bytes bs)) (sym (length-eq-zero f.constant_fee size)))
  ]

  config_read :
      parse_data (laid f)
      ≡ some (record {
        token = b'0' ∷ b'x' ∷ to_hex f.token;
        post_op_gas = from_bytes f.post_op_gas;
        exchange_rate = from_bytes f.exchange_rate;
        constant_fee = from_bytes f.constant_fee;
      })
  unfolding parse_data drop
  config_read =
      let long : ltb (suc (length (config_of f))) 118 ≡ false =
        ltb_no (omega (arith, length-config)) in
      rw (long, h.mode_erc20, read_fee-laid, token_at, post_op_gas_at, exchange_rate_at) refl

-- Of a `paymasterData` text that is laid out as ERC-20 mode has it, from bytes, the token, the `postOp` gas,
-- the rate and the constant fee are read back as they were laid down; a fee that the flags leave out
-- is zero.
pub parse_erc20_paymaster_data-laid :
    (f : Fields)
    → IsLaid f
    → All (λ b. b < 256) (laid f)
    → parse_erc20_paymaster_data (b'0' ∷ b'x' ∷ to_hex (laid f))
      ≡ some (record {
        token = b'0' ∷ b'x' ∷ to_hex f.token;
        post_op_gas = from_bytes f.post_op_gas;
        exchange_rate = from_bytes f.exchange_rate;
        constant_fee = from_bytes f.constant_fee;
      })
unfolding parse_erc20_paymaster_data
parse_erc20_paymaster_data-laid f h b = rw (from_hex-to_hex (laid f) b) (config_read f h)
