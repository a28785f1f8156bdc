-- ===== src/Json/Codec.antt =====
-- How encoding/json reads and writes the values of a Go type: an interface, with the strings, the
-- booleans, the pointers and the slices.
use go_conflux_sdk.Base.{
  ◌≡◌, ap, ◌≢◌, refl, Bool, true, false, Option, none, some, List, [], ◌∷◌, Text, All, text_eq,
  text_eq_iff,
}
use go_conflux_sdk.Result.{Result, ok, err, ◌>>=◌}
use go_conflux_sdk.Json.Float64.{in_interface, in_items}
use go_conflux_sdk.Json.{Value, null, bool, num, str, arr, obj, Items, nil, cons, type_error}

pub record Codec (A : Type 0) : Type 1 where
  pub zero_value : A
  -- Into a variable that holds a value.
  pub read : A → Value → Result A
  pub write : A → Value
  -- What omitempty leaves out.
  pub is_empty : A → Bool
  -- The values that are written as they are.
  pub IsWritable : A → Type 0

pub record CodecLaws {A : Type 0} (c : Codec A) : Type 0 where
  pub read_write : (a : A) → c.IsWritable a → c.read c.zero_value (c.write a) ≡ ok a
  pub empty_zero : (a : A) → c.is_empty a ≡ true → a ≡ c.zero_value
  pub in_interface-write : (a : A) → c.IsWritable a → in_interface (c.write a) ≡ c.write a

-- What a codec under a pointer does not write.
abbrev pub NeverNull : {A : Type 0} → Codec A → Type 0
NeverNull c = (a : _) → c.write a ≢ null

-- A string type: null keeps what it holds.
unfoldable pub text_value : Text → Value → Result Text
text_value old null = ok old
text_value old (str t) = ok t
text_value old _ = err type_error

abbrev pub text_codec : Codec Text
text_codec = record {
  zero_value = [];
  read = text_value;
  write = str;
  is_empty = λ t. text_eq t [];
  IsWritable = λ t. Unit;
}

pub text_laws : CodecLaws text_codec
unfolding text_value in_interface
text_laws = record {
  read_write = λ t h. refl;
  empty_zero = λ t e. (text_eq_iff t []).0 e;
  in_interface-write = λ t h. refl;
}

unfoldable pub bool_value : Bool → Value → Result Bool
bool_value old null = ok old
bool_value old (bool b) = ok b
bool_value old _ = err type_error

abbrev is_false : Bool → Bool
is_false true = false
is_false false = true

abbrev pub bool_codec : Codec Bool
bool_codec = record {
  zero_value = false;
  read = bool_value;
  write = bool;
  is_empty = is_false;
  IsWritable = λ b. Unit;
}

false_empty : (b : Bool) → is_false b ≡ true → b ≡ false
false_empty true e = absurd (cc e)
false_empty false e = refl

pub bool_laws : CodecLaws bool_codec
unfolding bool_value in_interface
bool_laws = record {
  read_write = λ b h. refl;
  empty_zero = false_empty;
  in_interface-write = λ b h. refl;
}

-- A pointer: null makes it nil.
module _ {A : Type 0} (c : Codec A) where
  unfoldable pub pointer_value : Value → Result (Option A)
  pointer_value null = ok none
  pointer_value v = do a ← c.read c.zero_value v; ok (some a)

  abbrev write_pointer : Option A → Value
  write_pointer none = null
  write_pointer (some a) = c.write a

  abbrev is_nil : Option A → Bool
  is_nil none = true
  is_nil (some a) = false

  abbrev IsWritablePointer : Option A → Type 0
  IsWritablePointer none = Unit
  IsWritablePointer (some a) = c.IsWritable a

  abbrev pub pointer : Codec (Option A)
  pointer = record {
    zero_value = none;
    read = λ old. pointer_value;
    write = write_pointer;
    is_empty = is_nil;
    IsWritable = IsWritablePointer;
  }

  pointer_value-some :
      (v : Value) → v ≢ null → pointer_value v ≡ (c.read c.zero_value v >>= λ a. ok (some a))
  unfolding pointer_value
  pointer_value-some null h = absurd (h refl)
  pointer_value-some (bool b) h = refl
  pointer_value-some (num t) h = refl
  pointer_value-some (str t) h = refl
  pointer_value-some (arr vs) h = refl
  pointer_value-some (obj fs) h = refl

  pointer-read :
      CodecLaws c
      → NeverNull c
      → (p : Option A) → IsWritablePointer p
      → pointer_value (write_pointer p) ≡ ok p
  unfolding pointer_value
  pointer-read laws never none h = refl
  pointer-read laws never (some a) h =
      rw (pointer_value-some (c.write a) (never a), laws.read_write a h) refl

  nil_empty : (p : Option A) → is_nil p ≡ true → p ≡ none
  nil_empty none e = refl
  nil_empty (some a) e = absurd (cc e)

  in_interface-pointer :
      CodecLaws c
      → (p : Option A) → IsWritablePointer p
      → in_interface (write_pointer p) ≡ write_pointer p
  unfolding in_interface
  in_interface-pointer laws none h = refl
  in_interface-pointer laws (some a) h = laws.in_interface-write a h

  pub pointer_laws : CodecLaws c → NeverNull c → CodecLaws pointer
  pointer_laws laws never = record {
    read_write = pointer-read laws never;
    empty_zero = nil_empty;
    in_interface-write = in_interface-pointer laws;
  }

  -- A slice, where nil and empty are one.
  unfoldable pub read_items : Items → Result (List A)
  read_items nil = ok []
  read_items (cons v vs) = do a ← c.read c.zero_value v; rest ← read_items vs; ok (a ∷ rest)

  unfoldable pub slice_value : Value → Result (List A)
  unfolding read_items
  slice_value null = ok []
  slice_value (arr vs) = read_items vs
  slice_value _ = err type_error

  abbrev write_items : List A → Items
  write_items [] = nil
  write_items (a ∷ rest) = cons (c.write a) (write_items rest)

  abbrev is_no_item : List A → Bool
  is_no_item [] = true
  is_no_item (a ∷ rest) = false

  abbrev pub slice : Codec (List A)
  slice = record {
    zero_value = [];
    read = λ old. slice_value;
    write = λ xs. arr (write_items xs);
    is_empty = is_no_item;
    IsWritable = All c.IsWritable;
  }

  read_items-write :
      CodecLaws c → (xs : List A) → All c.IsWritable xs → read_items (write_items xs) ≡ ok xs
  unfolding read_items
  read_items-write laws [] h = refl
  read_items-write laws (x ∷ xs) (h, hs) =
      rw (laws.read_write x h, read_items-write laws xs hs) refl

  no_item_empty : (xs : List A) → is_no_item xs ≡ true → xs ≡ []
  no_item_empty [] e = refl
  no_item_empty (x ∷ xs) e = absurd (cc e)

  in_items-write :
      CodecLaws c → (xs : List A) → All c.IsWritable xs → in_items (write_items xs) ≡ write_items xs
  unfolding in_items
  in_items-write laws [] h = refl
  in_items-write laws (x ∷ xs) (h, hs) =
      rw (laws.in_interface-write x h, in_items-write laws xs hs) refl

  pub slice_laws : CodecLaws c → CodecLaws slice
  unfolding slice_value in_interface
  slice_laws laws = record {
    read_write = read_items-write laws;
    empty_zero = no_item_empty;
    in_interface-write = λ xs h. ap arr (in_items-write laws xs h);
  }
