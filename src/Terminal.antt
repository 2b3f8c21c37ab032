-- ===== src/Terminal.antt =====
-- Parts of src/libc/terminal.cpp: here the parser of a TLS record and the search for a text. Bytes and characters are
-- numbers below 256; what follows the end of a list is read as 0.
pub mod Record
pub mod Contains
pub mod Hex
pub mod Decimal
pub mod Ports
pub mod Line
pub mod Editing
pub mod Edited
pub mod Inserted
pub mod Editor
pub mod Copying
pub mod Commands
pub mod Rows
pub mod Remembered
pub mod Typing
pub mod Keys
pub mod Pressed
mod Tests
use mr_hak_os.Prelude.{
  ℕ, zero, suc, ◌+◌, ◌-◌, ◌*◌, ◌≤◌, ◌<◌, ◌≡◌, ◌≢◌, ◌∙◌, ◌⊎◌, refl, List, [], ◌∷◌, ◌++◌, Bool, true,
  false, Option, none, some, inl, inr, arith, ◌==◌, if◌then◌else◌, ltb, ◌&&◌, get_or, ◌||◌, leb,
  not,
}

pub record TlsParsedRecord : Type 0 where
  pub valid_record : Bool
  pub is_handshake : Bool
  pub is_alert : Bool
  pub record_type : ℕ
  pub major : ℕ
  pub minor : ℕ
  pub record_len : ℕ
  pub handshake_type : ℕ
  pub handshake_len : ℕ
  pub alert_level : ℕ
  pub alert_description : ℕ

-- clearTlsParsedRecord
abbrev pub cleared : TlsParsedRecord
cleared = record {
  valid_record = false;
  is_handshake = false;
  is_alert = false;
  record_type = 0;
  major = 0;
  minor = 0;
  record_len = 0;
  handshake_type = 0;
  handshake_len = 0;
  alert_level = 0;
  alert_description = 0;
}

-- The five bytes of the header.
unfoldable pub parse_header : List ℕ → TlsParsedRecord
parse_header bytes =
    let type = get_or bytes 0 0 in
    let version = get_or bytes 1 0 in
    let size = get_or bytes 3 0 * 256 + get_or bytes 4 0 in
    record cleared {
      record_type = type;
      major = version;
      minor = get_or bytes 2 0;
      record_len = size;
      valid_record =
          (version == 0x03)
          && (type == 0x16 || type == 0x15 || type == 0x14 || type == 0x17)
          && leb size (16384 + 2048);
    }

-- The start of the body.
unfoldable pub parse_body : List ℕ → ℕ → TlsParsedRecord → TlsParsedRecord
parse_body bytes len rec =
    if (rec.record_type == 0x16) && leb 9 len
    then record rec {
      is_handshake = true;
      handshake_type = get_or bytes 5 0;
      handshake_len = get_or bytes 6 0 * 65536 + get_or bytes 7 0 * 256 + get_or bytes 8 0;
    }
    else if (rec.record_type == 0x15) && leb 7 len
    then record rec {
      is_alert = true;
      alert_level = get_or bytes 5 0;
      alert_description = get_or bytes 6 0;
    }
    else rec

unfoldable pub parse_tls_record : Option (List ℕ) → ℕ → Bool × TlsParsedRecord
unfolding parse_header parse_body
parse_tls_record none len = (false, cleared)
parse_tls_record (some bytes) len =
    if ltb len 5
    then (false, cleared)
    else (let rec = parse_header bytes in
        if not rec.valid_record then (false, rec) else (true, parse_body bytes len rec))

-- while (needle[j] && haystack[i + j] == needle[j]) j++; whether needle[j] is then the terminator.
unfoldable pub starts : List ℕ → List ℕ → Bool
starts [] haystack = true
starts (c ∷ needle) [] = c == 0
starts (c ∷ needle) (d ∷ haystack) =
    let rest = starts needle haystack in if c == 0 then true else if d == c then rest else false

-- The loop over the places of the haystack.
unfoldable pub contains_from : List ℕ → List ℕ → Bool
unfolding starts
contains_from [] needle = false
contains_from (d ∷ haystack) needle =
    let rest = contains_from haystack needle in
    if d == 0 then false else if starts needle (d ∷ haystack) then true else rest

-- needle[0] == '\0'
abbrev pub no_text : List ℕ → Bool
no_text needle = get_or needle 0 0 == 0

unfoldable pub text_contains : Option (List ℕ) → Option (List ℕ) → Bool
unfolding contains_from
text_contains none needle = false
text_contains (some haystack) none = false
text_contains (some haystack) (some needle) =
    if no_text needle then false else contains_from haystack needle
