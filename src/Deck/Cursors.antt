-- ===== src/Deck/Cursors.antt =====
-- api/v1/_cursor.py: a cursor as a text for the URL. JSON, base64 and the formats of times and ids are
-- parameters; a text is the list of its code points.
use grand_line.Common.{
  ℕ, zero, suc, ◌+◌, ◌-◌, ◌%◌, ◌<◌, ◌≡◌, refl, ap, sym, ◌∙◌, Bool, true, false, ◌&&◌, Option, none,
  some, [], ◌∷◌, ◌++◌, ◌==◌, if◌then◌else◌, arith, Text, length,
}
use grand_line.Deck.Pages.{Cursor}

pub data CursorError : Type 0 where
  empty_cursor invalid_base64 invalid_json missing_fields invalid_ts invalid_id : CursorError

pub data Decoded : Type 0 where
  decoded : Cursor → Decoded
  cursor_error : CursorError → Decoded

-- The standard library: base64, JSON objects by their fields `ts` and `id`, times and ids.
pub record Codec : Type 0 where
  pub dumps : Text → Text → Text
  pub loads : Text → Option (Option Text × Option Text)
  pub isoformat : ℕ → Text
  pub fromisoformat : Text → Option ℕ
  pub str_uuid : ℕ → Text
  pub uuid : Text → Option ℕ
  pub b64encode : Text → Text
  pub b64decode : Text → Option Text

abbrev pub is_nil : Text → Bool
is_nil [] = true
is_nil (x ∷ xs) = false

-- `rstrip("=")`
abbrev pub rstrip_equals : Text → Text
rstrip_equals [] = []
rstrip_equals (x ∷ xs) =
    let rest = rstrip_equals xs in if is_nil rest && (x == 61) then [] else x ∷ rest

-- `"=" * n`
abbrev pub equals : ℕ → Text
equals zero = []
equals (suc n) = 61 ∷ equals n

-- `(-len(raw)) % 4`
abbrev pub pad_len : Text → ℕ
pad_len raw = (4 - length raw % 4) % 4

module _ (codec : Codec) where
  unfoldable pub encode_cursor : Cursor → Text
  encode_cursor c =
      rstrip_equals (codec.b64encode (codec.dumps (codec.isoformat c.ts) (codec.str_uuid c.row_id)))

  abbrev pub decode_id : ℕ → Option ℕ → Decoded
  decode_id ts none = cursor_error invalid_id
  decode_id ts (some id) = decoded (record { ts = ts; row_id = id })

  abbrev pub decode_ts : Option ℕ → Text → Decoded
  decode_ts none id = cursor_error invalid_ts
  decode_ts (some ts) id = decode_id ts (codec.uuid id)

  abbrev pub decode_fields : Option (Option Text × Option Text) → Decoded
  decode_fields none = cursor_error invalid_json
  decode_fields (some (none, id)) = cursor_error missing_fields
  decode_fields (some (some ts, none)) = cursor_error missing_fields
  decode_fields (some (some ts, some id)) = decode_ts (codec.fromisoformat ts) id

  abbrev pub decode_bytes : Option Text → Decoded
  decode_bytes none = cursor_error invalid_base64
  decode_bytes (some bytes) = decode_fields (codec.loads bytes)

  unfoldable pub decode_cursor : Text → Decoded
  decode_cursor raw =
      if is_nil raw
      then cursor_error empty_cursor
      else decode_bytes (codec.b64decode (raw ++ equals (pad_len raw)))

-- What the standard library documents: what is written is read back, and base64 writes groups of four,
-- the last one filled with fewer than four `=`.
pub record CodecLaws (codec : Codec) : Type 0 where
  pub loads-dumps : (ts id : Text) → codec.loads (codec.dumps ts id) ≡ some (some ts, some id)
  pub iso_back : (t : ℕ) → codec.fromisoformat (codec.isoformat t) ≡ some t
  pub uuid_back : (i : ℕ) → codec.uuid (codec.str_uuid i) ≡ some i
  pub b64_back : (x : Text) → codec.b64decode (codec.b64encode x) ≡ some x
  pub b64_groups :
      (ts id : Text)
      → (x : ℕ) × (body : Text) × (k : ℕ) × (codec.b64encode (codec.dumps ts id)
          ≡ (x ∷ body) ++ equals k)
        × (rstrip_equals (x ∷ body) ≡ x ∷ body)
        × (k < 4)
        × ((length (x ∷ body) + k) % 4 ≡ 0)

rstrip_equals-equals : (n : ℕ) → rstrip_equals (equals n) ≡ []
rstrip_equals-equals zero = refl
rstrip_equals-equals (suc n) = rw (rstrip_equals-equals n) refl

rstrip_equals-append : (xs : Text) (n : ℕ) → rstrip_equals (xs ++ equals n) ≡ rstrip_equals xs
rstrip_equals-append [] n = rstrip_equals-equals n
rstrip_equals-append (x ∷ xs) n = rw (rstrip_equals-append xs n) refl

pad_len-fills : (n k : ℕ) → k < 4 → (n + k) % 4 ≡ 0 → (4 - n % 4) % 4 ≡ k
pad_len-fills n k small full = omega arith

-- A cursor that was encoded is decoded to itself, if the standard library reads back what it writes.
pub decode-encode :
    (codec : Codec)
    → CodecLaws codec
    → (c : Cursor) → decode_cursor codec (encode_cursor codec c) ≡ decoded c
unfolding decode_cursor encode_cursor
decode-encode codec laws c =
    let ts = codec.isoformat c.ts in
    let id = codec.str_uuid c.row_id in
    let (x, body, k, written, bare, small, full) = laws.b64_groups ts id in
    let stripped : rstrip_equals (codec.b64encode (codec.dumps ts id)) ≡ x ∷ body =
      ap rstrip_equals written ∙ rstrip_equals-append (x ∷ body) k ∙ bare in
    let filled : (x ∷ body) ++ equals (pad_len (x ∷ body)) ≡ codec.b64encode (codec.dumps ts id) =
      ap (λ n. (x ∷ body) ++ equals n) (pad_len-fills (length (x ∷ body)) k small full)
      ∙ sym written in
    rw
      (
        stripped,
        filled,
        laws.b64_back (codec.dumps ts id),
        laws.loads-dumps ts id,
        laws.iso_back c.ts,
        laws.uuid_back c.row_id,
      )
      refl
