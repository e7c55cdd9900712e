-- ===== src/Keymgmt/Represent.antt =====
-- crates/nocap-crypt-keymgmt/src/represent.rs: how key material is shown in a log. `hex::encode` writes
-- two lower-case digits for each byte.
use Prim.Native.String.{◌++◌ as ◌<>◌}
use nocap_crypt.Base.{ℕ, zero, suc, List, [], ◌∷◌, take, drop, length, String}
use nocap_crypt.Base.Text.{show_nat, hex_bytes}
use nocap_crypt.Core.Primitives.{Primitives}

-- A chunk before the others, if there are any.
abbrev join_chunk : List ℕ → String → String → String
join_chunk [] chunk more = chunk
join_chunk (b ∷ bs) chunk more = chunk <> " " <> more

-- `key.chunks(4).map(hex::encode)`, joined by spaces; a round for each byte is enough.
unfoldable pub hex_chunks : ℕ → List ℕ → String
hex_chunks zero key = ""
hex_chunks (suc rounds) key =
    let more = hex_chunks rounds (drop 4 key) in
    join_chunk (drop 4 key) (hex_bytes (take 4 key)) more

unfoldable pub hex_grouped : List ℕ → String
hex_grouped key = hex_chunks (length key) key

unfoldable pub fingerprint : Primitives → List ℕ → String
fingerprint p key = hex_bytes (take 4 (p.sha256 key))

unfoldable pub redacted : Primitives → List ℕ → String
redacted p key = "<" <> show_nat (length key) <> " bytes, fingerprint " <> fingerprint p key <> ">"
