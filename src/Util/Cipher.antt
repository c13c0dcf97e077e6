-- ===== src/Util/Cipher.antt =====
-- util/aes256cfb.go: cipher feedback over a block cipher, with the standard library's stream and
-- hexadecimal text. The block function under the program's key is an argument; it gives blocks of
-- 16 bytes. A text is the list of its bytes.
use Prim.Native.Nat.{bit_xor}
use lotus_tools.Prelude.{
  ℕ, zero, suc, ◌+◌, ◌-◌, ◌*◌, ◌/◌, ◌%◌, ◌<◌, ◌≡◌, refl, sym, ap, ap₂, ◌∙◌, false, ◌&&◌, Option,
  none, some, List, [], ◌∷◌, ◌++◌, length, take, drop, Result, ok, err, Run, done, panic, ◌>>=◌,
  if◌then◌else◌, ltb, leb, All, All-append, arith, length-append,
}
use lotus_tools.Util.Text.{Text}
use lotus_tools.Util.Xor.{bit_xor_twice, bit_xor_byte}

-- aes.BlockSize
abbrev pub block_size : ℕ
block_size = 16

-- The stream: the block that is fed, as far as it goes, and the unused bytes of the key stream.
pub record Stream : Type 0 where
  pub fed : Text
  pub unused : Text

-- The next byte of the key stream, and the stream without it. A block has bytes.
abbrev pub next_key : Text → ℕ × Text
next_key [] = (0, [])
next_key (k ∷ ks) = (k, ks)

abbrev pub feed : ℕ → Stream → Stream
feed c s = record { fed = s.fed ++ c ∷ []; unused = (next_key s.unused).1 }

-- The stream for an initial vector.
abbrev pub initial : Text → Stream
initial iv = record { fed = iv; unused = [] }

module _ (block : Text → Text) where
  abbrev pub refill_from : Text → Text → Stream
  refill_from fed [] = record { fed = []; unused = block fed }
  refill_from fed (k ∷ ks) = record { fed = fed; unused = k ∷ ks }

  -- A used up key stream is refilled from the fed block.
  abbrev pub refill : Stream → Stream
  refill s = refill_from s.fed s.unused

  -- stream.XORKeyStream: the block that is fed is of encrypted bytes.
  unfoldable pub encrypt : Stream → Text → Text
  encrypt s [] = []
  encrypt s (c ∷ cs) =
      let r = refill s in let o = bit_xor c (next_key r.unused).0 in o ∷ encrypt (feed o r) cs

  unfoldable pub decrypt : Stream → Text → Text
  decrypt s [] = []
  decrypt s (o ∷ os) = let r = refill s in bit_xor o (next_key r.unused).0 ∷ decrypt (feed o r) os

  decrypt-encrypt : (s : Stream) (text : Text) → decrypt s (encrypt s text) ≡ text
  unfolding decrypt encrypt
  decrypt-encrypt s [] = refl
  decrypt-encrypt s (c ∷ cs) =
      let r = refill s in
      let k = (next_key r.unused).0 in
      ap₂ ◌∷◌ (bit_xor_twice c k) (decrypt-encrypt (feed (bit_xor c k) r) cs)

-- A digit of fmt's %x, and the value of a hexadecimal digit.
unfoldable pub hex_digit : ℕ → ℕ
hex_digit d = if ltb d 10 then b'0' + d else b'a' + (d - 10)

unfoldable pub hex_value : ℕ → Option ℕ
hex_value c =
    if leb b'0' c && leb c b'9'
    then some (c - b'0')
    else (if leb b'a' c && leb c b'f'
        then some (c - b'a' + 10)
        else (if leb b'A' c && leb c b'F' then some (c - b'A' + 10) else none))

unfoldable pub hex_encode : Text → Text
hex_encode [] = []
hex_encode (c ∷ cs) = hex_digit (c / 16) ∷ hex_digit (c % 16) ∷ hex_encode cs

abbrev pub put_byte : Option ℕ → Option ℕ → Text → Text
put_byte (some hi) (some lo) rest = (hi * 16 + lo) ∷ rest
put_byte (some hi) none rest = []
put_byte none lo rest = []

-- hex.DecodeString without its error: the bytes before the first that is malformed.
unfoldable pub hex_decode : Text → Text
hex_decode [] = []
hex_decode (a ∷ []) = []
hex_decode (a ∷ b ∷ cs) = put_byte (hex_value a) (hex_value b) (hex_decode cs)

hex_value-hex_digit : (d : ℕ) → d < 16 → hex_value (hex_digit d) ≡ some d
unfolding hex_value hex_digit
hex_value-hex_digit d h = ground arith

hex_decode-hex_encode : (cs : Text) → All (λ c. c < 256) cs → hex_decode (hex_encode cs) ≡ cs
unfolding hex_decode hex_encode
hex_decode-hex_encode [] h = refl
hex_decode-hex_encode (c ∷ cs) (h, hs) =
    rw (hex_value-hex_digit (c / 16) (omega arith), hex_value-hex_digit (c % 16) (omega arith))
      (ap₂ ◌∷◌ (omega arith) (hex_decode-hex_encode cs hs))

module _ (block : Text → Text) where
  -- `CFBDecrypter`: the first block of the code is the initial vector.
  abbrev pub decrypt_bytes : Text → Run Text
  decrypt_bytes ciphertext =
      if ltb (length ciphertext) block_size
      then panic
      else done (decrypt block (initial (take block_size ciphertext)) (drop block_size ciphertext))

  unfoldable pub cfb_decrypter : Text → Run Text
  cfb_decrypter code = decrypt_bytes (hex_decode code)

  -- `CFBEncrypter`, for what the random source gives as the initial vector.
  unfoldable pub cfb_encrypter : Result Text → Text → Run Text
  cfb_encrypter (err _) text = panic
  cfb_encrypter (ok iv) text = done (hex_encode (iv ++ encrypt block (initial iv) text))

abbrev pub AreBytes : Text → Type 0
AreBytes = All (λ c. c < 256)

take-append : {A : Type 0} (n : ℕ) (xs ys : List A) → n ≡ length xs → take n (xs ++ ys) ≡ xs
take-append zero [] ys h = refl
take-append zero (x ∷ xs) ys h = absurd (omega arith)
take-append (suc n) [] ys h = absurd (omega arith)
take-append (suc n) (x ∷ xs) ys h = ap (λ zs. x ∷ zs) (take-append n xs ys (omega arith))

drop-append_length : {A : Type 0} (n : ℕ) (xs ys : List A) → n ≡ length xs → drop n (xs ++ ys) ≡ ys
drop-append_length zero [] ys h = refl
drop-append_length zero (x ∷ xs) ys h = absurd (omega arith)
drop-append_length (suc n) [] ys h = absurd (omega arith)
drop-append_length (suc n) (x ∷ xs) ys h = drop-append_length n xs ys (omega arith)

next_key-byte : (ks : Text) → AreBytes ks → ((next_key ks).0 < 256) × AreBytes (next_key ks).1
next_key-byte [] h = (omega arith, tt)
next_key-byte (k ∷ ks) (h, hs) = (h, hs)

module _ (block : Text → Text) (bytes : (b : Text) → AreBytes (block b)) where
  refill_from-AreBytes :
      (fed unused : Text) → AreBytes unused → AreBytes (refill_from block fed unused).unused
  refill_from-AreBytes fed [] h = bytes fed
  refill_from-AreBytes fed (k ∷ ks) h = h

  encrypt-AreBytes :
      (s : Stream) (text : Text)
      → AreBytes s.unused
      → AreBytes text
      → AreBytes (encrypt block s text)
  unfolding encrypt
  encrypt-AreBytes s [] u h = tt
  encrypt-AreBytes s (c ∷ cs) u (h, hs) =
      let r = refill block s in
      let (k, ks) = next_key-byte r.unused (refill_from-AreBytes s.fed s.unused u) in
      let o = bit_xor c (next_key r.unused).0 in
      (bit_xor_byte c (next_key r.unused).0 h k, encrypt-AreBytes (feed o r) cs ks hs)

  -- What was encrypted is decrypted to the same text, for any text of bytes, any initial vector of
  -- 16 bytes and any block function that gives bytes.
  pub cfb_decrypter-cfb_encrypter :
      (iv text : Text)
      → length iv ≡ block_size
      → AreBytes iv
      → AreBytes text
      → (cfb_encrypter block (ok iv) text >>= cfb_decrypter block) ≡ done text
  unfolding cfb_decrypter cfb_encrypter
  cfb_decrypter-cfb_encrypter iv text size v t =
      let secret = encrypt block (initial iv) text in
      let all = All-append (λ c. c < 256) iv secret v (encrypt-AreBytes (initial iv) text tt t) in
      let long : ltb (length (iv ++ secret)) block_size ≡ false =
        ground (arith, length-append iv secret) in
      ap (decrypt_bytes block) (hex_decode-hex_encode (iv ++ secret) all)
      ∙ rw
          (
            long,
            take-append block_size iv secret (sym size),
            drop-append_length block_size iv secret (sym size),
          )
          (ap done (decrypt-encrypt block (initial iv) text))
