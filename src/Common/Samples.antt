-- ===== src/Common/Samples.antt =====
-- Plain functions in the place of the libraries that the program calls, for concrete runs.
use enil.Common.{
  ℕ, zero, suc, ◌≤◌, ◌≡◌, refl, ap, ◌∙◌, Bool, true, false, Option, none, some, List, [], ◌∷◌, ◌==◌,
  length, take, some_inj, sym, arith,
}
use enil.Common.Int.{ℤ, pos, negsuc}
use enil.Common.Text.{Text, codes}
use enil.Common.Json.{
  Json, number, array, object, nil, node, child, nth, size, find_key, snoc, ObjectLaws, Grants,
  Cjson, Numbers, ArrayLaws,
}
use enil.Common.Libc.{Allocator}
use enil.B64.{Evp}

abbrev pub zeros : ℕ → List ℕ
zeros zero = []
zeros (suc n) = 0 ∷ zeros n

pub length-zeros : (n : ℕ) → length (zeros n) ≡ n
length-zeros zero = refl
length-zeros (suc n) = ap suc (length-zeros n)

abbrev fit : List ℕ → ℕ → List ℕ
fit [] n = zeros n
fit (x ∷ b) zero = []
fit (x ∷ b) (suc n) = x ∷ fit b n

length-fit : (b : List ℕ) (n : ℕ) → length (fit b n) ≡ n
length-fit [] n = length-zeros n
length-fit (x ∷ b) zero = refl
length-fit (x ∷ b) (suc n) = ap suc (length-fit b n)

take-fit : (b : List ℕ) (n : ℕ) → length b ≤ n → take (length b) (fit b n) ≡ b
take-fit [] n h = refl
take-fit (x ∷ b) zero h = absurd (omega arith)
take-fit (x ∷ b) (suc n) h = ap (λ t. x ∷ t) (take-fit b n (omega arith))

pub malloc_size : (n : ℕ) (m : List ℕ) → some (zeros n) ≡ some m → length m ≡ n
malloc_size n m e = ap (λ (t : List ℕ). length t) (sym (some_inj e)) ∙ length-zeros n

pub realloc_size : (b : List ℕ) (n : ℕ) (m : List ℕ) → some (fit b n) ≡ some m → length m ≡ n
realloc_size b n m e = ap (λ (t : List ℕ). length t) (sym (some_inj e)) ∙ length-fit b n

pub realloc_rest :
    (b : List ℕ) (n : ℕ) (m : List ℕ)
    → some (fit b n) ≡ some m
    → length b ≤ n
    → take (length b) m ≡ b
realloc_rest b n m e h = ap (take (length b)) (sym (some_inj e)) ∙ take-fit b n h

-- An allocator that refuses nothing.
abbrev pub plenty : Allocator
plenty = record {
  malloc = λ n. some (zeros n);
  realloc = λ b n. some (fit b n);
  malloc_length = malloc_size;
  realloc_length = realloc_size;
  realloc_keeps = realloc_rest;
}

abbrev is_some : Option Json → Bool
is_some none = false
is_some (some j) = true

abbrev add : Json → Text → Json → Option Json
add (array kids) k v = some (array (snoc kids k v))
add (object kids) k v = some (object (snoc kids k v))
add _ k v = none

abbrev with_rest : Json → Option Json → Option (Json × Json)
with_rest v none = none
with_rest v (some item) = some (item, v)

-- `parse` reads every text as an object that carries the text's length as its revision.
abbrev pub sample_cjson : Cjson
sample_cjson = record {
  get_array_item = λ v i. nth (child v) i;
  get_object_item_case_sensitive = λ v k. find_key (child v) k;
  get_object_item = λ v k. find_key (child v) k;
  get_array_size = λ v. size (child v);
  has_object_item = λ v k. is_some (find_key (child v) k);
  create = λ v. some v;
  add_item_to_object = add;
  add_item_to_array = λ o v. add o [] v;
  parse = λ t. some (object (node (codes "revision") (number (length t)) nil));
  print_unformatted = λ v. some [];
  detach_item_from_object = λ v k. with_rest v (find_key (child v) k);
  duplicate = λ v. some v;
}

pub sample_arrays : ArrayLaws sample_cjson
sample_arrays = record { get_array_size_lem = λ kids. refl; get_array_item_lem = λ kids i. refl }

pub sample_grants : Grants sample_cjson
sample_grants = record { creates = λ v. refl; adds = λ kids k v. refl }

pub sample_objects : ObjectLaws sample_cjson
sample_objects = record {
  create_lem = λ v w e. sym (some_inj e);
  add_item_lem = λ kids k v o e. sym (some_inj e);
  get_item_lem = λ kids k. refl;
}

abbrev magnitude : ℤ → ℕ
magnitude (pos n) = n
magnitude (negsuc n) = suc n

abbrev pub sample_numbers : Numbers
sample_numbers = record {
  strtoll = λ t. none;
  strtoll_prefix = λ t. pos 0;
  is_safe = λ d. true;
  to_i64 = λ d. pos d;
  of_i64 = magnitude;
  double_eq = λ a b. a == b;
  print_lld = λ n. b'0' ∷ [];
  print_whole = λ d. b'0' ∷ [];
}

abbrev pub sample_evp : Evp
sample_evp = record { encode_block = λ s n. s; decode_block = λ t n. some t }
