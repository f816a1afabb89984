-- ===== src/Tests/Wire.antt =====
-- The wire format at concrete packets (protofish4-proto/src/codec.rs, header.rs, crypto.rs).
use protofish4_rs.Base.{
  ℕ, ◌≡◌, refl, List, [], ◌∷◌, ◌++◌, some, ok, err, ◌>>=◌, length, take, drop, arith,
}
use protofish4_rs.Types.{UuidApi, send, recv}
use protofish4_rs.Failure.{wrong_direction}
use protofish4_rs.Frame.{
  PacketKind, kind_data, kind_ack, kind_nack, kind_name, kind_direction, kind_seq_class, Body,
  body_data, body_nack, body_ack, body_kind,
}
use protofish4_rs.Codec.{encode_body, decode_body, encode_seqs, get_range}
use protofish4_rs.Codec.RoundTrip.{decode-encode}
use protofish4_rs.Codec.Canonical.{encode-decode}
use protofish4_rs.Header.{Header, header_len, parse, to_bytes}
use protofish4_rs.Header.RoundTrip.{IsRequestId, parse-to_bytes, to_bytes-parse}
use protofish4_rs.Crypto.{AeadApi, nonce_for, seal, open_datagram, open_sealed, request_id_of}
use protofish4_rs.Crypto.Sealing.{Decrypts, open-seal, open_authentic}

-- A `Uuid` that is its bytes.
abbrev pub bytes_uuid : UuidApi (List ℕ)
bytes_uuid = record { as_bytes = λ id. id; from_bytes = λ b. b }

abbrev pub some_id : List ℕ
some_id = 1 ∷ 2 ∷ 3 ∷ 4 ∷ 5 ∷ 6 ∷ 7 ∷ 8 ∷ 9 ∷ 10 ∷ 11 ∷ 12 ∷ 13 ∷ 14 ∷ 15 ∷ 16 ∷ []

pub some_id-IsRequestId : IsRequestId bytes_uuid some_id
some_id-IsRequestId = record { length_bytes = refl; from-as = refl }

-- A cipher that hides nothing: it writes the key before the message.
abbrev pub clear_aead : AeadApi (List ℕ)
clear_aead = record {
  new = λ key. key;
  encrypt = λ key nonce msg aad. some (key ++ msg);
  decrypt = λ key nonce c aad. some (drop (length key) c);
}

drop-append : (xs ys : List ℕ) → drop (length xs) (xs ++ ys) ≡ ys
drop-append [] ys = refl
drop-append (x ∷ xs) ys = drop-append xs ys

pub clear_aead-Decrypts : Decrypts bytes_uuid clear_aead
clear_aead-Decrypts key nonce msg aad c e = ground (arith, drop-append key msg)

abbrev nack : Body
nack = body_nack (3 ∷ 7 ∷ [])

abbrev nack_bytes : List ℕ
nack_bytes = 0 ∷ 2 ∷ 0 ∷ 0 ∷ 0 ∷ 3 ∷ 0 ∷ 0 ∷ 0 ∷ 7 ∷ []

decode-encode_example : (encode_body {Uuid = List ℕ} nack >>= decode_body kind_nack) ≡ ok nack
decode-encode_example = decode-encode nack (omega arith)

nack_bytes_decoded : decode_body {Uuid = List ℕ} kind_nack nack_bytes ≡ ok nack
unfolding decode_body get_range protofish4_rs.Codec.take_u16 protofish4_rs.Codec.expect_len
    protofish4_rs.Codec.take_seqs protofish4_rs.Codec.take_u32
nack_bytes_decoded = refl

encode-decode_example :
    (body_kind nack ≡ kind_nack) × (encode_body {Uuid = List ℕ} nack ≡ ok nack_bytes)
encode-decode_example = encode-decode kind_nack nack_bytes nack (ground arith) nack_bytes_decoded

abbrev ack_header : Header (List ℕ)
ack_header = record { kind = kind_ack; request_id = some_id; seq = 258 }

abbrev ack_header_bytes : List ℕ
ack_header_bytes = 4 ∷ 3 ∷ (some_id ++ (0 ∷ 0 ∷ 1 ∷ 2 ∷ []))

parse-to_bytes_example :
    parse bytes_uuid (to_bytes bytes_uuid ack_header ++ (9 ∷ 9 ∷ [])) ≡ ok (ack_header, 9 ∷ 9 ∷ [])
parse-to_bytes_example =
    parse-to_bytes bytes_uuid ack_header (9 ∷ 9 ∷ []) some_id-IsRequestId (omega arith)

ack_header_parsed : parse bytes_uuid (ack_header_bytes ++ (9 ∷ [])) ≡ ok (ack_header, 9 ∷ [])
unfolding parse protofish4_rs.Frame.kind_from_u8
ack_header_parsed = refl

to_bytes-parse_example : to_bytes bytes_uuid ack_header ++ (9 ∷ []) ≡ ack_header_bytes ++ (9 ∷ [])
to_bytes-parse_example =
    to_bytes-parse bytes_uuid (ack_header_bytes ++ (9 ∷ [])) (9 ∷ []) ack_header (λ b e. refl)
      (ground arith) ack_header_parsed

abbrev some_counter : ℕ
some_counter = 258

-- An `Ack` sealed under a key of two bytes.
abbrev packet : List ℕ
packet = ack_header_bytes ++ (70 ∷ 71 ∷ 5 ∷ 6 ∷ [])

packet_sealed : seal bytes_uuid clear_aead (70 ∷ 71 ∷ []) ack_header recv (5 ∷ 6 ∷ []) ≡ ok packet
unfolding seal to_bytes
packet_sealed = refl

open-seal_example :
    (open_datagram bytes_uuid clear_aead (70 ∷ 71 ∷ []) packet recv ≡ ok (ack_header, 5 ∷ 6 ∷ []))
    × (open_datagram bytes_uuid clear_aead (70 ∷ 71 ∷ []) packet send
        ≡ err (wrong_direction (kind_name kind_ack)))
    × (request_id_of bytes_uuid clear_aead packet ≡ ok some_id)
open-seal_example =
    open-seal bytes_uuid clear_aead (70 ∷ 71 ∷ []) ack_header recv (5 ∷ 6 ∷ []) packet
      clear_aead-Decrypts some_id-IsRequestId (omega arith) refl packet_sealed

packet_opened :
    open_datagram bytes_uuid clear_aead (70 ∷ 71 ∷ []) packet recv ≡ ok (ack_header, 5 ∷ 6 ∷ [])
unfolding open_datagram open_sealed parse protofish4_rs.Frame.kind_from_u8
packet_opened = refl

open_authentic_example :
    (kind_direction kind_ack ≡ recv)
    × (clear_aead.decrypt
          (70 ∷ 71 ∷ [])
          (nonce_for recv (kind_seq_class kind_ack) 258)
          (drop header_len packet)
          (take header_len packet)
        ≡ some (5 ∷ 6 ∷ []))
open_authentic_example =
    open_authentic bytes_uuid clear_aead (70 ∷ 71 ∷ []) recv packet (5 ∷ 6 ∷ []) ack_header
      (λ b e. refl) (ground arith) some_id-IsRequestId packet_opened
