-- ===== src/Session/Maps.antt =====
-- source/shared/enil_session.c: the two maps of partial full syncs, found in the object of session.json or added
-- to it.
use enil.Common.{
  ◌≤◌, inl, inr, ◌⊎◌, ◌≡◌, refl, sym, ap, ◌∙◌, false, Option, none, some, ◌>>=◌, some_inj,
}
use enil.Common.Int.{ℤ}
use enil.Common.Text.{Text, text_eq, text_eq_refl}
use enil.Session.{Sessions, put_file}
use enil.Common.Json.{
  Json, Children, object, nil, null, bool, number, string, array, field, find_key, snoc,
}
use enil.ApiJson.{enil_json_coerce_int64}
use enil.Session.Partial.{
  PartialStore, stamp, pending_name, completed_name, MapPair, added_map, map_or_new, partial_map,
  second_map, both_maps,
}
use enil.Session.Counts.{count, count-snoc-none}
use enil.Session.Stamps.{coerced, PartialLaws, find_snoc_same, find_snoc_other}

pub names_apart : text_eq pending_name completed_name ≡ false
unfolding text_eq
names_apart = refl

pub names_apart' : text_eq completed_name pending_name ≡ false
unfolding text_eq
names_apart' = refl

-- The timestamp of a category in a map of an object, 0 without the map.
abbrev pub view : PartialStore → Children → Text → Text → ℤ
view m kids name key =
    enil_json_coerce_int64 m.store.numbers (field m.store.cjson (find_key kids name) key)

-- The object has the map under this name, with the timestamps it had, and all else as it was.
abbrev pub IsMap : PartialStore → Children → Text → MapPair → Type 0
IsMap m kids name (root, map) =
    (rk mk : Children) × (root ≡ object rk)
    × (map ≡ object mk)
    × (find_key rk name ≡ some (object mk))
    × ((key : Text) → stamp m (object mk) key ≡ view m kids name key)
    × ((other : Text) → text_eq name other ≡ false → find_key rk other ≡ find_key kids other)
    × ((find_key kids name ≡ some (object mk)) ⊎ (mk ≡ nil))
    × ((n : Text) → count kids n ≤ 1 → count rk n ≤ 1)

-- The object with both maps.
abbrev pub AreMaps : PartialStore → Children → Json × MapPair → Type 0
AreMaps m kids (root, (pending, completed)) =
    (rk pk ck : Children) × (root ≡ object rk)
    × (pending ≡ object pk)
    × (completed ≡ object ck)
    × (find_key rk pending_name ≡ some (object pk))
    × (find_key rk completed_name ≡ some (object ck))
    × ((key : Text) → stamp m (object pk) key ≡ view m kids pending_name key)
    × ((key : Text) → stamp m (object ck) key ≡ view m kids completed_name key)
    × ((find_key kids pending_name ≡ some (object pk)) ⊎ (pk ≡ nil))
    × ((n : Text) → count kids n ≤ 1 → count rk n ≤ 1)

module _ (m : PartialStore) (laws : PartialLaws m) where
  added_inv :
      (kids : Children) (name : Text) (o : Option Json) (r : MapPair)
      → find_key kids name ≡ none
      → m.add_object (object kids) name ≡ o
      → added_map m o ≡ some r
      → IsMap m kids name r
  unfolding stamp enil_json_coerce_int64
  added_inv kids name none r f a h = absurd (cc h)
  added_inv kids name (some o) (root, map) f a h =
      let e = some_inj h in
      let e0 : o ≡ root = ap (λ (r : MapPair). r.0) e in
      let e1 : object nil ≡ map = ap (λ (r : MapPair). r.1) e in
      (
        snoc kids name (object nil),
        nil,
        sym e0 ∙ laws.add_object_lem kids name o a,
        sym e1,
        find_snoc_same kids name (object nil) f,
        λ key.
            ap (coerced m) (laws.objects.get_item_lem nil key)
            ∙ ap (λ o. coerced m (field m.store.cjson o key)) (sym f),
        λ other apart. find_snoc_other kids name other (object nil) apart,
        inr refl,
        count-snoc-none kids name (object nil) f,
      )

  found_inv :
      (kids : Children) (name : Text) (v : Option Json) (r : MapPair)
      → find_key kids name ≡ v
      → map_or_new m (object kids) name v ≡ some r
      → IsMap m kids name r
  unfolding stamp enil_json_coerce_int64
  found_inv kids name none (root, map) f h =
      added_inv kids name (m.add_object (object kids) name) (root, map) f refl h
  found_inv kids name (some (object mk)) (root, map) f h =
      let e = some_inj h in
      let e0 : object kids ≡ root = ap (λ (r : MapPair). r.0) e in
      let e1 : object mk ≡ map = ap (λ (r : MapPair). r.1) e in
      (
        kids,
        mk,
        sym e0,
        sym e1,
        f,
        λ key. ap (λ o. coerced m (field m.store.cjson o key)) (sym f),
        λ other apart. refl,
        inl f,
        λ n once. once,
      )
  found_inv kids name (some null) r f h = absurd (cc h)
  found_inv kids name (some (bool x)) r f h = absurd (cc h)
  found_inv kids name (some (number x)) r f h = absurd (cc h)
  found_inv kids name (some (string x)) r f h = absurd (cc h)
  found_inv kids name (some (array x)) r f h = absurd (cc h)

  partial_map_inv :
      (kids : Children) (name : Text) (r : MapPair)
      → partial_map m (object kids) name ≡ some r
      → IsMap m kids name r
  unfolding partial_map
  partial_map_inv kids name r h =
      let e = laws.objects.get_item_lem kids name in
      found_inv kids name (find_key kids name) r refl
        (ap (λ v. map_or_new m (object kids) name v) (sym e) ∙ h)

  completed_inv :
      (kids rk pk : Children) (o : Option MapPair) (r : Json × MapPair)
      → partial_map m (object rk) completed_name ≡ o
      → (o >>= λ c. some (c.0, (object pk, c.1))) ≡ some r
      → find_key rk pending_name ≡ some (object pk)
      → ((key : Text) → stamp m (object pk) key ≡ view m kids pending_name key)
      → find_key rk completed_name ≡ find_key kids completed_name
      → (find_key kids pending_name ≡ some (object pk)) ⊎ (pk ≡ nil)
      → ((n : Text) → count kids n ≤ 1 → count rk n ≤ 1)
      → AreMaps m kids r
  unfolding text_eq
  completed_inv kids rk pk none r f h fp sp op src once = absurd (cc h)
  completed_inv kids rk pk (some (root, completed)) r f h fp sp op src once =
      let (rk', ck, er, ec, fc, sc, oc, from, once') =
        partial_map_inv rk completed_name (root, completed) f in
      rw (sym (some_inj h)) (
        rk',
        pk,
        ck,
        er,
        refl,
        ec,
        oc pending_name refl ∙ fp,
        fc,
        sp,
        λ key. sc key ∙ ap (λ o. coerced m (field m.store.cjson o key)) op,
        src,
        λ n h. once' n (once n h),
      )

  second_inv :
      (kids : Children) (first : Option MapPair) (r : Json × MapPair)
      → partial_map m (object kids) pending_name ≡ first
      → second_map m first ≡ some r
      → AreMaps m kids r
  unfolding text_eq
  second_inv kids none r f h = absurd (cc h)
  second_inv kids (some (root, pending)) r f h =
      let (rk, pk, er, ep, fp, sp, op, src, once) =
        partial_map_inv kids pending_name (root, pending) f in
      completed_inv kids rk pk (partial_map m (object rk) completed_name) r refl
        (rw (er, ep, second_map) at h) fp sp (op completed_name refl) src once

  pub both_maps_inv :
      (kids : Children) (r : Json × MapPair) → both_maps m (object kids) ≡ some r → AreMaps m kids r
  unfolding both_maps
  both_maps_inv kids r h = second_inv kids (partial_map m (object kids) pending_name) r refl h

-- The timestamp of a category in a map of a session file.
abbrev pub saved_stamp : PartialStore → Sessions → Text → Text → Text → ℤ
saved_stamp m s path name key =
    enil_json_coerce_int64 m.store.numbers
      (field m.store.cjson (field m.store.cjson (s.files path) name) key)

module _ (m : PartialStore) (laws : PartialLaws m) where
  pub saved_stamp-view :
      (s : Sessions) (path : Text) (kids : Children)
      → s.files path ≡ some (object kids)
      → (name key : Text) → saved_stamp m s path name key ≡ view m kids name key
  saved_stamp-view s path kids f name key =
      ap (λ o. enil_json_coerce_int64 m.store.numbers (field m.store.cjson o key))
        (ap (λ o. field m.store.cjson o name) f ∙ laws.objects.get_item_lem kids name)

  -- After an object was written, its maps are what the file holds; other files are as they were.
  pub view_put :
      (s : Sessions) (path : Text) (root : Json) (kids mk : Children) (name : Text)
      → root ≡ object kids
      → find_key kids name ≡ some (object mk)
      → (key : Text)
      → saved_stamp m (record s { files = put_file s.files path root }) path name key
        ≡ stamp m (object mk) key
  unfolding stamp
  view_put s path root kids mk name e f key =
      saved_stamp-view (record s { files = put_file s.files path root }) path kids
        (rw (text_eq_refl path, put_file) (ap (λ o. some o) e)) name key
      ∙ ap (λ o. enil_json_coerce_int64 m.store.numbers (field m.store.cjson o key)) f
