-- ===== src/BasicCoder/Functions.antt =====
-- couchbase.c: the PHP functions of the transcoders and of the compressors, after the engine has read
-- their arguments, and the handlers of the settings. The array lookups of contrib/php_array.h are the
-- record Lookup; `exceeds` stands for the test that the double of an option makes.
use php_couchbase.Base.{
  ℕ, ◌+◌, ◌/◌, Bool, Option, none, some, Bytes, codes, bytes_eq, length, leb, ◌&&◌, ◌||◌,
  if◌then◌else◌,
}
use php_couchbase.Zval.{Zval, Entries, num, long, array, end, entry}
use php_couchbase.BasicCoder.{
  Codec, Settings, sertype_json, sertype_php, cmprtype_none, cmprtype_zlib, cmprtype_fastlz,
  preamble, read_preamble, basic_encoder_v1, basic_decoder_v1,
}

-- php_array_exists, and php_array_fetch_long and its like, which give the pattern of a long.
pub record Lookup : Type 0 where
  pub exists : Entries → Bytes → Bool
  pub fetch_long : Entries → Bytes → ℕ
  pub fetch_bool : Entries → Bytes → Bool
  pub exceeds : Entries → Bytes → ℕ → ℕ → Bool

-- The settings of the encoder and `dec_json_array`.
pub record Globals : Type 0 where
  pub encoder : Settings
  pub dec_json_array : Bool
  pub log_level : Bytes

-- OnUpdateFormat: `none` is FAILURE. A missing value is the default.
unfoldable pub on_update_format : Option Bytes → Option ℕ
on_update_format none = some sertype_json
on_update_format (some s) =
    if bytes_eq s (codes "json") || bytes_eq s (codes "JSON")
    then some sertype_json
    else (if bytes_eq s (codes "php") || bytes_eq s (codes "PHP") then some sertype_php else none)

-- OnUpdateCmpr
unfoldable pub on_update_cmpr : Option Bytes → Option ℕ
on_update_cmpr none = some cmprtype_none
on_update_cmpr (some s) =
    if bytes_eq s (codes "off")
      || bytes_eq s (codes "none")
      || bytes_eq s (codes "OFF")
      || bytes_eq s (codes "NONE")
    then some cmprtype_none
    else (if bytes_eq s (codes "zlib") || bytes_eq s (codes "ZLIB")
        then some cmprtype_zlib
        else (if bytes_eq s (codes "fastlz") || bytes_eq s (codes "FASTLZ")
            then some cmprtype_fastlz
            else none))

-- OnUpdateLogLevel: the level by its rank, from 0 for TRACE to 5 for FATAL.
unfoldable pub on_update_log_level : Option Bytes → Option ℕ
on_update_log_level none = some 3
on_update_log_level (some s) =
    if bytes_eq s (codes "TRACE") || bytes_eq s (codes "TRAC")
    then some 0
    else (if bytes_eq s (codes "DEBUG") || bytes_eq s (codes "DEBG")
        then some 1
        else (if bytes_eq s (codes "INFO")
            then some 2
            else (if bytes_eq s (codes "WARN")
                then some 3
                else (if bytes_eq s (codes "ERROR") || bytes_eq s (codes "EROR")
                    then some 4
                    else (if bytes_eq s (codes "FATAL") || bytes_eq s (codes "FATL")
                        then some 5
                        else none)))))

module _ (codec : Codec) (lookup : Lookup) where
  -- An option that counts only in a range; a negative long has a pattern above it.
  ranged : Entries → Bytes → ℕ → ℕ → ℕ
  ranged options name limit default =
      if lookup.exists options name && leb (lookup.fetch_long options name) limit
      then lookup.fetch_long options name
      else default

  override_settings : Settings → Option Entries → Settings
  unfolding ranged
  override_settings s none = s
  override_settings s (some options) = record {
    sertype = ranged options (codes "sertype") sertype_php s.sertype;
    cmprtype = ranged options (codes "cmprtype") cmprtype_fastlz s.cmprtype;
    cmprthresh =
        if lookup.exists options (codes "cmprthresh")
        then lookup.fetch_long options (codes "cmprthresh")
        else s.cmprthresh;
    exceeds =
        if lookup.exists options (codes "cmprfactor")
        then lookup.exceeds options (codes "cmprfactor")
        else s.exceeds;
  }

  -- basicEncoderV1
  unfoldable pub basic_encoder : Globals → Zval → Option Entries → Option Zval
  unfolding override_settings
  basic_encoder g value options = basic_encoder_v1 codec (override_settings g.encoder options) value

  json_array : Globals → Option Entries → Bool
  json_array g none = g.dec_json_array
  json_array g (some options) =
      if lookup.exists options (codes "jsonassoc")
      then lookup.fetch_bool options (codes "jsonassoc")
      else g.dec_json_array

  -- basicDecoderV1
  unfoldable pub basic_decoder : Globals → Bytes → ℕ → ℕ → Option Entries → Option Zval
  unfolding json_array
  basic_decoder g bytes flags datatype options =
      basic_decoder_v1 codec (json_array g options) bytes flags

-- defaultEncoder and defaultDecoder
unfoldable pub default_encoder : Codec → Globals → Zval → Option Zval
default_encoder codec g value = basic_encoder_v1 codec g.encoder value

unfoldable pub default_decoder : Codec → Globals → Bytes → ℕ → ℕ → Option Zval
default_decoder codec g bytes flags datatype = basic_decoder_v1 codec g.dec_json_array bytes flags

-- passthruEncoder and passthruDecoder
unfoldable pub passthru_encoder : Zval → Zval
passthru_encoder value =
    array (entry (num 0) value (entry (num 1) (long 0) (entry (num 2) (long 0) end)))

unfoldable pub passthru_decoder : Zval → Zval → Zval → Zval
passthru_decoder value flags datatype = value

module _ (codec : Codec) where
  -- zlibCompress: the buffer has compressBound(size) bytes and takes four more than the compressed
  -- text. `none` is a write past its end, or the use of a length that nothing has set.
  bounded : ℕ → ℕ → Option Bytes → Option Bytes
  bounded room size none = none
  bounded room size (some c) = if leb (4 + length c) room then some (preamble size c) else none

  unfoldable pub zlib_compress : (ℕ → ℕ) → Bytes → Option Bytes
  unfolding bounded
  zlib_compress compress_bound b = bounded (compress_bound (length b)) (length b) (codec.compress b)

  -- fastlzCompress: its buffer has 5% more than the input.
  unfoldable pub fastlz_compress : Bytes → Option Bytes
  unfolding bounded
  fastlz_compress b =
      bounded (4 + (length b + length b / 20)) (length b) (some (codec.fastlz_compress b))

  inflate : Option (ℕ × Bytes) → Option Bytes
  inflate none = none
  inflate (some (size, rest)) = codec.uncompress rest size

  -- zlibDecompress; an error of uncompress is not looked at, and the buffer is returned as it is.
  -- `none`: bytes that nothing has set, or a text shorter than its preamble.
  unfoldable pub zlib_decompress : Bytes → Option Bytes
  unfolding inflate
  zlib_decompress b = inflate (read_preamble b)

  defl : Option (ℕ × Bytes) → Option Bytes
  defl none = none
  defl (some (size, rest)) = some (codec.fastlz_decompress rest size)

  -- fastlzDecompress
  unfoldable pub fastlz_decompress : Bytes → Option Bytes
  unfolding defl
  fastlz_decompress b = defl (read_preamble b)
