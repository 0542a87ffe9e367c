-- ===== src/Objects/Dict.antt =====
-- src/belle_sip_dict.c: strings by name, kept as the data of an object. The numbers, which are printed
-- and read by libc, are left out.
use belle_sip.Prelude.{
  ◌≡◌, refl, inl, inr, Bool, true, Option, none, some, List, [], ◌++◌, if◌then◌else◌, Option-cases,
  String,
}
use belle_sip.Objects.Store.{
  Store, Change, data_find, data_set, data_get, data_exists, data_remove, data_clear, data_merge,
}
use belle_sip.Lists.Values.{find_custom}
use belle_sip.Objects.Lookup.{DistinctNames, find-data_merge}

abbrev pub Dict : Type 0
Dict = Store String

unfoldable pub dict_set_string : String → String → Dict → Change String
unfolding data_set
dict_set_string k v d = data_set k (some v) true d

-- The default may be a null pointer.
unfoldable pub dict_get_string : String → Option String → Dict → Option String
unfolding data_get
dict_get_string k default d = elim (data_get k d) [ none ↦ default | some v ↦ some v ]

-- belle_sip_dict_string_clone
abbrev pub dict_string_clone : String → Option String → Option String
dict_string_clone k v = v

unfoldable pub dict_remove : String → Dict → Change String
unfolding data_remove
dict_remove k d = data_remove k d

unfoldable pub dict_clear : Dict → Change String
unfolding data_clear
dict_clear d = data_clear d

unfoldable pub dict_merge : Dict → Dict → Dict × List (Option String)
unfolding data_merge
dict_merge src dst = data_merge (some dict_string_clone) src dst

unfoldable pub dict_clone : Dict → Dict → Dict × List (Option String)
unfolding dict_clear dict_merge
dict_clone src dst =
    let c = dict_clear dst in let r = dict_merge src c.store in (r.0, c.freed ++ r.1)

unfoldable pub dict_haskey : Dict → String → Bool
unfolding data_exists
dict_haskey d k = data_exists k d

-- A merge takes a string from the first dictionary if that has the name, and else leaves what the
-- second had; and a dictionary that is cloned to has what the first has under each name, and nothing else:
-- both where the first dictionary has no duplicates.
pub dict_merge_clone :
    (src dst : Dict) (k : String) (default : Option String)
    → DistinctNames src
    → (dict_get_string k default (dict_merge src dst).0 ≡ (
        if dict_haskey src k then dict_get_string k default src else dict_get_string k default dst))
      × (dict_get_string k default (dict_clone src dst).0 ≡ dict_get_string k default src)
      × (dict_haskey (dict_clone src dst).0 k ≡ dict_haskey src k)
unfolding dict_get_string dict_merge dict_clone dict_clear dict_haskey data_get data_exists
    data_clear data_find find_custom
dict_merge_clone src dst k default d =
    let m = find-data_merge (some dict_string_clone) src dst k d in
    let c = find-data_merge (some dict_string_clone) src [] k d in
    elim (Option-cases (data_find k src)) [
      | inl e ↦ rw (m, c, e, dict_get_string, data_get, dict_haskey, data_exists) (refl, refl, refl)
      | inr (x, e) ↦
          rw (m, c, e, dict_get_string, data_get, dict_haskey, data_exists) (refl, refl, refl)
    ]
