-- ===== src/Message/Text.antt =====
-- smtp-message/src/misc.rs: `MaybeUtf8`. A string is its UTF-8 bytes; the type parameter `S` of the
-- source says who owns it, and its conversions keep the bytes.
use kannader.Prelude.{Bool, true, ◌&&◌, List, [], ◌∷◌, ltb, if◌then◌else◌, Bytes}

pub data MaybeUtf8 : Type 0 where
  ascii : Bytes → MaybeUtf8
  utf8 : Bytes → MaybeUtf8

abbrev pub as_str : MaybeUtf8 → Bytes
as_str (ascii s) = s
as_str (utf8 s) = s

-- `str::is_ascii`
abbrev pub is_ascii : Bytes → Bool
is_ascii [] = true
is_ascii (c ∷ cs) = ltb c 128 && is_ascii cs

-- `MaybeUtf8::from`
abbrev pub from_str : Bytes → MaybeUtf8
from_str s = if is_ascii s then ascii s else utf8 s

-- Each slice that `as_io_slices` gives is a byte string.
abbrev pub as_io_slices : MaybeUtf8 → List Bytes
as_io_slices t = as_str t ∷ []
