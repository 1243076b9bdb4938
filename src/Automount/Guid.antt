-- ===== src/Automount/Guid.antt =====
-- cominitAutomountFormatGuid, and the comparison of GUIDs without regard to case.
use cominit.Base.{
  ℕ, ◌+◌, ◌*◌, Bool, true, false, ◌&&◌, [], ◌∷◌, ◌++◌, leb, ◌==◌, if◌then◌else◌, Bytes, get_or,
}
use cominit.Libc.Printf.{hex}

-- `le16toh` and `le32toh` of the bytes at an offset.
unfoldable pub le16 : Bytes → ℕ → ℕ
le16 raw i = get_or raw i 0 + 256 * get_or raw (i + 1) 0

unfoldable pub le32 : Bytes → ℕ → ℕ
unfolding le16
le32 raw i = le16 raw i + 65536 * le16 raw (i + 2)

abbrev byte : Bytes → ℕ → Bytes
byte raw i = hex 2 (get_or raw i 0)

unfoldable pub format_guid : Bytes → Bytes
unfolding le16 le32
format_guid raw =
    hex 8 (le32 raw 0)
    ++ (b'-'
        ∷ (hex 4 (le16 raw 4)
            ++ (b'-'
                ∷ (hex 4 (le16 raw 6)
                    ++ (b'-'
                        ∷ (byte raw 8
                            ++ (byte raw 9
                                ++ (b'-'
                                    ∷ (byte raw 10
                                        ++ (byte raw 11
                                            ++ (byte raw 12
                                                ++ (byte raw 13
                                                    ++ (byte raw 14 ++ byte raw 15)))))))))))))

unfoldable pub tolower : ℕ → ℕ
tolower c = if leb b'A' c && leb c b'Z' then c + 32 else c

-- `strcasecmp(a, b) == 0`
unfoldable pub equal_case : Bytes → Bytes → Bool
unfolding tolower
equal_case [] [] = true
equal_case (x ∷ xs) (y ∷ ys) = tolower x == tolower y && equal_case xs ys
equal_case _ _ = false
