-- ===== src/Flight/Descriptor/Shown.antt =====
-- A descriptor that Elixir sends is shown to Elixir as the same term.
use text.Mathlib.Text.{◌==◌ as str_eq}
use ex_arrow.Prelude.{
  ℕ, ◌≡◌, Bool, true, some, List, length, ok, ok_or, ok_or-eq-ok, Yields, Yields-ok, Yields-err,
  Yields-if, Yields-bind, >>=-eq-ok,
}
use ex_arrow.Beam.{
  Text, Term, Rustler, RustlerLaws, named, atom, int, float, other, binary, tuple, list, improper,
  nil, cons, binaries,
}
use ex_arrow.Flight.{FlightDescriptor}
use ex_arrow.Flight.Descriptor.{
  DescriptorError, cmd_descriptor, path_descriptor, segments_of, descriptor_of, decode_descriptor,
  try_encode_binary, encode_descriptor,
}

module _ {F : Type 0} (r : Rustler F) (laws : RustlerLaws r) (grants : ℕ → Bool) where
  open r use {atom_of, binary_of, strings_of}
  open laws use {atom_of-eq-some, binary_of-eq-some, strings_of-eq-some}

  abbrev ShownAs : Term F → FlightDescriptor → Type 0
  ShownAs t d = grants (length d.cmd) ≡ true → encode_descriptor grants (some d) ≡ some t

  cmd-ShownAs :
      (bytes : Text) (tag t : Term F)
      → tag ≡ atom "cmd"
      → t ≡ binary bytes
      → ShownAs (tuple (cons tag (cons t nil))) (cmd_descriptor bytes)
  unfolding encode_descriptor try_encode_binary
  cmd-ShownAs bytes tag t named sent granted = rw granted (cc (named, sent))

  path-ShownAs :
      (ss : List Text) (tag t : Term F)
      → tag ≡ atom "path"
      → t ≡ list (binaries ss)
      → ShownAs (tuple (cons tag (cons t nil))) (path_descriptor ss)
  unfolding encode_descriptor
  path-ShownAs ss tag t named sent granted = cc (named, sent)

  segments_of-eq-ok :
      (t : Term F) (ss : List Text) → segments_of r t ≡ ok ss → strings_of t ≡ some ss
  unfolding segments_of
  segments_of-eq-ok (improper t ts tail) ss h =
      let (segments, got, panics) =
        >>=-eq-ok (ok_or (strings_of (list (cons t ts))) DescriptorError.path_not_strings) _ h in
      absurd (cc panics)
  segments_of-eq-ok (list ts) ss h = ok_or-eq-ok (strings_of (list ts)) _ h
  segments_of-eq-ok (tuple ts) ss h = ok_or-eq-ok (strings_of (tuple ts)) _ h
  segments_of-eq-ok (atom a) ss h = ok_or-eq-ok (strings_of (atom a)) _ h
  segments_of-eq-ok (binary s) ss h = ok_or-eq-ok (strings_of (binary s)) _ h
  segments_of-eq-ok (int z) ss h = ok_or-eq-ok (strings_of (int z)) _ h
  segments_of-eq-ok (float f) ss h = ok_or-eq-ok (strings_of (float f)) _ h
  segments_of-eq-ok other ss h = ok_or-eq-ok (strings_of other) _ h

  decode-Yields : (t : Term F) → Yields (ShownAs t) (decode_descriptor r t)
  unfolding decode_descriptor descriptor_of
  decode-Yields (tuple (cons tag (cons t nil))) =
      Yields-bind (ok_or (atom_of tag) DescriptorError.tag_not_atom) (λ a got.
        let has = ok_or-eq-ok (atom_of tag) DescriptorError.tag_not_atom got in
        Yields-if (str_eq a "cmd")
          (λ e. Yields-bind (ok_or (binary_of t) DescriptorError.cmd_not_binary) (λ bytes h.
            Yields-ok (cmd_descriptor bytes) (
              cmd-ShownAs bytes tag t (named r laws tag a "cmd" has e)
                (binary_of-eq-some t bytes (ok_or-eq-ok (binary_of t) _ h)))))
          (λ _.
            Yields-if (str_eq a "path")
              (λ e. Yields-bind (segments_of r t) (λ ss h. Yields-ok (path_descriptor ss) (
                path-ShownAs ss tag t (named r laws tag a "path" has e)
                  (strings_of-eq-some t ss (segments_of-eq-ok t ss h)))))
              (λ _. Yields-err DescriptorError.unknown_tag)))
  decode-Yields (tuple nil) = Yields-err DescriptorError.not_pair
  decode-Yields (tuple (cons a nil)) = Yields-err DescriptorError.not_pair
  decode-Yields (tuple (cons a (cons b (cons c ts)))) = Yields-err DescriptorError.not_pair
  decode-Yields (atom a) = Yields-err DescriptorError.not_tuple
  decode-Yields _ = Yields-err DescriptorError.not_tuple

-- A descriptor that is read from a term is encoded as that term again, if the BEAM grants a binary of
-- the size of its command.
pub encode_descriptor-decode_descriptor :
    {F : Type 0} (r : Rustler F) (laws : RustlerLaws r) (grants : ℕ → Bool) (t : Term F)
    (d : FlightDescriptor)
    → decode_descriptor r t ≡ ok d
    → grants (length d.cmd) ≡ true
    → encode_descriptor grants (some d) ≡ some t
encode_descriptor-decode_descriptor r laws grants t d h granted =
    (decode-Yields r laws grants t).at d h granted
