-- ===== src/Parquet/Options.antt =====
-- parquet.rs: `decode_read_opts`, `decode_write_opts` and the decoders of their values. The
-- options are a keyword list, and a key that comes again replaces what it set before.
-- `ZstdLevel::try_new` is a parameter: `none` where it accepts the level, else its message.
use text.Mathlib.Text.{◌==◌ as str_eq}
use ex_arrow.Prelude.{
  ℕ, zero, suc, ℤ, pos, negsuc, Bool, true, false, ◌>>◌, ensure, String, Option, none, some, List,
  [], ◌∷◌, ◌||◌, ◌^◌, fits_signed, if◌then◌else◌, Result, ok, err, ◌>>=◌, ok_or, when_some,
}
use ex_arrow.Beam.{Text, Term, Terms, Rustler, tuple, list, improper, nil, cons}
use ex_arrow.Parquet.{
  ReadOpts, WriteOpts, Compression, uncompressed, snappy, lz4_raw, gzip, zstd, Error, improper_list,
  opts_not_list, opt_not_pair, opt_len, opt_key, unknown_option, columns_not_list,
  column_not_string, row_groups_not_list, row_group_not_integer, row_group_negative,
  row_group_size_type, row_group_size_positive, dictionary_type, compression_tag, zstd_level_type,
  compression_tuple, compression_type, unsupported_compression, zstd_level_range,
  zstd_level_invalid,
}
use ex_arrow.Parquet.Decode.{decode_filter_expr}

module _ {F : Type 0} (r : Rustler F) where
  open r use {atom_of, bool_of, i64_of, f64_of, string_of}

  strings : Terms F → Result (Error F) (List Text)
  strings nil = ok []
  strings (cons t ts) = do
    s ← ok_or (string_of t) column_not_string
    rest ← strings ts
    ok (s ∷ rest)

  unfoldable pub decode_string_list : Term F → Result (Error F) (List Text)
  unfolding strings
  decode_string_list (list ts) = strings ts
  decode_string_list (improper t ts tail) = do ss ← strings (cons t ts); err improper_list
  decode_string_list _ = err columns_not_list

  -- `if n < 0 { return Err(..) }`, then `n as usize`
  non_negative : ℤ → Result (Error F) ℕ
  non_negative (pos n) = ok n
  non_negative (negsuc n) = err row_group_negative

  indices : Terms F → Result (Error F) (List ℕ)
  unfolding non_negative
  indices nil = ok []
  indices (cons t ts) = do
    z ← ok_or (i64_of t) row_group_not_integer
    n ← non_negative z
    rest ← indices ts
    ok (n ∷ rest)

  unfoldable pub decode_usize_list : Term F → Result (Error F) (List ℕ)
  unfolding indices
  decode_usize_list (list ts) = indices ts
  decode_usize_list (improper t ts tail) = do ns ← indices (cons t ts); err improper_list
  decode_usize_list _ = err row_groups_not_list

  -- An item of either keyword list: the key, and the term of its value.
  pair_of : Term F → Result (Error F) (String × Term F)
  pair_of (tuple (cons key (cons value nil))) = do k ← ok_or (atom_of key) opt_key; ok (k, value)
  pair_of (tuple _) = err opt_len
  pair_of _ = err opt_not_pair

  abbrev pub default_read_opts : ReadOpts F
  default_read_opts = record { columns = none; row_groups = none; filter = none }

  read_option : ReadOpts F → String → Term F → Result (Error F) (ReadOpts F)
  unfolding decode_string_list decode_usize_list
  read_option opts key value =
      if str_eq key "columns"
      then (do cs ← decode_string_list value; ok (record opts { columns = some cs }))
      else if str_eq key "row_groups"
      then (do rgs ← decode_usize_list value; ok (record opts { row_groups = some rgs }))
      else if str_eq key "filters"
      then (do f ← decode_filter_expr r value; ok (record opts { filter = some f }))
      else err (unknown_option key)

  unfoldable pub read_options : Terms F → ReadOpts F → Result (Error F) (ReadOpts F)
  unfolding pair_of read_option
  read_options nil opts = ok opts
  read_options (cons item rest) opts = do
    (key, value) ← pair_of item
    next ← read_option opts key value
    read_options rest next

  unfoldable pub is_nil : Term F → Bool
  is_nil t = when_some (atom_of t) (λ a. str_eq a "nil") false

  -- The elements, and whether the list ends in `[]`.
  unfoldable pub items : Term F → Result (Error F) (Terms F × Bool)
  items (list ts) = ok (ts, true)
  items (improper t ts tail) = ok (cons t ts, false)
  items _ = err opts_not_list

  unfoldable pub decode_read_opts : Term F → Result (Error F) (ReadOpts F)
  unfolding is_nil items read_options
  decode_read_opts t = if is_nil t then ok default_read_opts else (do
    (ts, proper) ← items t
    opts ← read_options ts default_read_opts
    ensure proper improper_list
    ok opts)

  module _ (zstd_level : ℤ → Option Text) where
    checked_level : ℤ → Result (Error F) Compression
    checked_level level =
        if fits_signed (2 ^ 31) level
        then when_some (zstd_level level) (λ e. err (zstd_level_invalid e)) (ok (zstd (some level)))
        else err (zstd_level_range level)

    compression_atom : Term F → Result (Error F) Compression
    compression_atom t = do
      a ← ok_or (atom_of t) compression_type
      if str_eq a "none" || str_eq a "uncompressed"
          then ok uncompressed
          else if str_eq a "snappy"
          then ok snappy
          else if str_eq a "zstd"
          then ok (zstd none)
          else if str_eq a "lz4"
          then ok lz4_raw
          else if str_eq a "gzip"
          then ok gzip
          else err unsupported_compression

    unfoldable pub decode_compression : Term F → Result (Error F) Compression
    unfolding checked_level compression_atom
    decode_compression (tuple (cons tag (cons level nil))) = do
      a ← ok_or (atom_of tag) compression_tag
      if str_eq a "zstd"
          then (do l ← ok_or (i64_of level) zstd_level_type; checked_level l)
          else err compression_tuple
    decode_compression t = compression_atom t

    -- `if n <= 0 { return Err(..) }`
    positive : ℤ → Result (Error F) ℕ
    positive (pos zero) = err row_group_size_positive
    positive (pos (suc n)) = ok (suc n)
    positive (negsuc n) = err row_group_size_positive

    abbrev pub default_write_opts : WriteOpts
    default_write_opts = record { compression = none; row_group_size = none; dictionary = none }

    write_option : WriteOpts → String → Term F → Result (Error F) WriteOpts
    unfolding decode_compression positive
    write_option opts key value =
        if str_eq key "compression"
        then (do c ← decode_compression value; ok (record opts { compression = some c }))
        else if str_eq key "row_group_size"
        then (do
          z ← ok_or (i64_of value) row_group_size_type
          n ← positive z
          ok (record opts { row_group_size = some n }))
        else if str_eq key "dictionary"
        then (do
          b ← ok_or (bool_of value) dictionary_type
          ok (record opts { dictionary = some b }))
        else err (unknown_option key)

    write_options : Terms F → WriteOpts → Result (Error F) WriteOpts
    unfolding pair_of write_option
    write_options nil opts = ok opts
    write_options (cons item rest) opts = do
      (key, value) ← pair_of item
      next ← write_option opts key value
      write_options rest next

    unfoldable pub decode_write_opts : Term F → Result (Error F) WriteOpts
    unfolding is_nil items write_options
    decode_write_opts t = if is_nil t then ok default_write_opts else (do
      (ts, proper) ← items t
      opts ← write_options ts default_write_opts
      ensure proper improper_list
      ok opts)
