-- ===== src/Meta/Render/Integrity/Keys.antt =====
-- Options whose key comes from the kernel keyring.
use cominit.Base.{
  ap, append_assoc, ◌/◌, ◌%◌, refl, ℕ, ◌<◌, ◌≤◌, [], ◌∷◌, ◌++◌, some, ◌≡◌, ◌≢◌, arith, true, Bytes,
  length, take-le, lt→ltb, le→leb, lt→leb, codes,
}
use cominit.Base.Run.{done, fault}
use cominit.Keyring.{keyring_get_key}
use cominit.Libc.Str.{Lacks}
use cominit.Libc.Printf.{hex, hex_digit}
use cominit.Meta.Hex.{bytes_to_hex}
use cominit.Machine.{Machine, Kernel, ok, keyctl_search, keyctl_read, log}
use cominit.Meta.Integrity.{
  has_optional_key, strstr_colons, key_option, process_key, process_option,
}

strstr_colons-Lacks :
    (a rest : Bytes)
    → a ≢ []
    → Lacks b':' a
    → strstr_colons (a ++ (b':' ∷ b':' ∷ rest)) ≡ some (a, rest)
unfolding strstr_colons
strstr_colons-Lacks [] rest ne h = absurd (ne refl)
strstr_colons-Lacks (c ∷ []) rest ne (h, hs) = ground arith
strstr_colons-Lacks (c ∷ d ∷ a) rest ne (h, hs) =
    ground (arith, strstr_colons-Lacks (d ∷ a) rest (cc) hs)

strstr_colons-one :
    (w a rest : Bytes)
    → Lacks b':' w
    → a ≢ []
    → Lacks b':' a
    → strstr_colons (w ++ (b':' ∷ (a ++ (b':' ∷ b':' ∷ rest)))) ≡ some (w ++ (b':' ∷ a), rest)
unfolding strstr_colons
strstr_colons-one w [] rest hw ne ha = absurd (ne refl)
strstr_colons-one [] (c ∷ a) rest hw ne ha =
    ground (arith, strstr_colons-Lacks (c ∷ a) rest (cc) ha)
strstr_colons-one (x ∷ []) (c ∷ a) rest (hx, hw) ne ha =
    ground (arith, strstr_colons-one [] (c ∷ a) rest tt (cc) ha)
strstr_colons-one (x ∷ y ∷ w) (c ∷ a) rest (hx, hw) ne ha =
    ground (arith, strstr_colons-one (y ∷ w) (c ∷ a) rest hw (cc) ha)

-- The dm-integrity options that may hold a key.
pub data KeyName : Bytes → Type 0 where
  internal_hash : {w : Bytes} → w ≡ codes "internal_hash" → KeyName w
  journal_crypt : {w : Bytes} → w ≡ codes "journal_crypt" → KeyName w
  journal_mac : {w : Bytes} → w ≡ codes "journal_mac" → KeyName w

KeyName-Lacks : {w : Bytes} → KeyName w → Lacks b':' w
KeyName-Lacks (internal_hash e) = rw e (omega arith)
KeyName-Lacks (journal_crypt e) = rw e (omega arith)
KeyName-Lacks (journal_mac e) = rw e (omega arith)

has_optional_key-KeyName :
    {w : Bytes} (rest : Bytes) → KeyName w → has_optional_key (w ++ (b':' ∷ rest)) ≡ true
unfolding has_optional_key
has_optional_key-KeyName rest (internal_hash e) = rw e
has_optional_key-KeyName rest (journal_crypt e) = rw e
has_optional_key-KeyName rest (journal_mac e) = rw e

-- `<name>:<algorithm>::<description>`
abbrev pub keyed : Bytes → Bytes → Bytes → Bytes
keyed name algorithm desc = name ++ (b':' ∷ (algorithm ++ (b':' ∷ b':' ∷ desc)))

-- Two hexadecimal digits for each byte.
unfoldable pub digits : Bytes → Bytes
digits [] = []
digits (b ∷ key) = hex_digit (b / 16 % 16) ∷ hex_digit (b % 16) ∷ digits key

-- `<name>:<algorithm>:<key> `
unfoldable pub key_text : Bytes → Bytes → Bytes → Bytes
key_text name algorithm key = name ++ (b':' ∷ (algorithm ++ (b':' ∷ (digits key ++ b' ' ∷ []))))

bytes_to_hex-digits : (key : Bytes) → bytes_to_hex key ≡ digits key
unfolding bytes_to_hex digits hex
bytes_to_hex-digits [] = refl
bytes_to_hex-digits (b ∷ key) =
    ap (λ s. hex_digit (b / 16 % 16) ∷ hex_digit (b % 16) ∷ s) (bytes_to_hex-digits key)

key_option-key_text :
    (name algorithm key : Bytes)
    → key_option (name ++ (b':' ∷ algorithm)) key ≡ key_text name algorithm key
unfolding key_option key_text
key_option-key_text name algorithm key =
    rw
      (
        bytes_to_hex-digits key,
        append_assoc name (b':' ∷ algorithm) (b':' ∷ (digits key ++ b' ' ∷ [])),
      )
      refl

module _ (kernel : Kernel) (name algorithm : Bytes) (c : ℕ) (desc : Bytes) (m : Machine) (id n : ℕ)
    (found key : Bytes) (is_key : KeyName name) (ne : algorithm ≢ [])
    (no_colon : Lacks b':' algorithm) (short : length (c ∷ desc) < 4095)
    (search : kernel m.trace (keyctl_search (c ∷ desc)) ≡ ok id found)
    (payload : kernel (log (keyctl_search (c ∷ desc)) id found m).trace (keyctl_read id 512)
      ≡ ok n key) where
  -- The keyring is asked for the description behind the two colons.
  process_option-process_key :
      process_option kernel (keyed name algorithm (c ∷ desc)) m
      ≡ process_key kernel
          (keyed name algorithm (c ∷ desc))
          (some (name ++ (b':' ∷ algorithm), c ∷ desc))
          m
  unfolding process_option
  process_option-process_key = rw (
    has_optional_key-KeyName (algorithm ++ (b':' ∷ b':' ∷ (c ∷ desc))) is_key,
    strstr_colons-one name algorithm (c ∷ desc) (KeyName-Lacks is_key) ne no_colon,
  )

  -- An option `<name>:<algorithm>::<description>`, whose algorithm is not empty and has no colon,
  -- is printed as `<name>:<algorithm>:<key> `, where the key is the payload that the kernel keyring
  -- holds under the description, in two lower-case hexadecimal digits for each byte, if it has 1 to 512
  -- bytes.
  pub process_option-key :
      1 ≤ n
      → n ≤ 512
      → length key ≡ n
      → process_option kernel (keyed name algorithm (c ∷ desc)) m
        ≡ done
            (key_text name algorithm key)
            (log (keyctl_read id 512) n key (log (keyctl_search (c ∷ desc)) id found m))
  unfolding process_key keyring_get_key
  process_option-key pos fits size = rw (
    process_option-process_key,
    lt→ltb (length (c ∷ desc)) 4095 short,
    search,
    payload,
    le→leb 1 n pos,
    le→leb n 512 fits,
    take-le n key (omega arith),
    key_option-key_text name algorithm key,
  )

  -- A key of more than 512 bytes, whose length KEYCTL_READ reports although it does not fit, makes
  -- the conversion run over the ends of the key buffers.
  pub process_option-long_key :
      512 < n
      → process_option kernel (keyed name algorithm (c ∷ desc)) m
        ≡ fault (log (keyctl_read id 512) n key (log (keyctl_search (c ∷ desc)) id found m))
  unfolding process_key keyring_get_key
  process_option-long_key long = rw (
    process_option-process_key,
    lt→ltb (length (c ∷ desc)) 4095 short,
    search,
    payload,
    le→leb 1 n (omega arith),
    lt→leb n 512 long,
  )
