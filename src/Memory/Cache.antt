-- ===== src/Memory/Cache.antt =====
-- What the store asks of gocache.Cache with no maximum size and no expiry, and that it can be met.
use ecs_gatus_app.Base.{ℕ, ◌≡◌, refl, not, Option, none, some, List, [], ◌∷◌, if◌then◌else◌, arith}
use ecs_gatus_app.Base.Text.{Text, text_eq}
use ecs_gatus_app.Base.Eq.{text_key}
use ecs_gatus_app.Base.Assoc.{lookup, insert, keep_keys, member, lookup-insert, lookup-keep_keys}

pub record Cache (V : Type 0) : Type 1 where
  pub State : Type 0
  pub new_cache : State
  pub get : Text → State → Option V
  pub set : Text → V → State → State
  pub get_all : State → List (Text × V)
  pub delete_all : List Text → State → State × ℕ
  pub clear : State → State
  -- Get after Set, for any two keys.
  pub get_set :
      (k j : Text) (v : V) (m : State)
      → get j (set k v m) ≡ (if text_eq k j then some v else get j m)
  -- A new cache and a cleared one hold nothing.
  pub get_new_cache : (k : Text) → get k new_cache ≡ none
  pub get_clear : (k : Text) (m : State) → get k (clear m) ≡ none
  -- GetAll returns the entries: a key is bound in it to what Get returns.
  pub lookup_get_all : (k : Text) (m : State) → lookup k (get_all m) ≡ get k m
  -- DeleteAll removes the keys that it is given, and those only.
  pub get_delete_all :
      (ks : List Text) (k : Text) (m : State)
      → get k (delete_all ks m).0 ≡ (if member k ks then none else get k m)

pub keys_deleted : {V : Type 0} → List Text → List (Text × V) → ℕ
keys_deleted ks [] = 0
keys_deleted ks ((k, v) ∷ m) =
    let rest = keys_deleted ks m in if member k ks then ℕ.suc rest else rest

pub lookup-nil : {V : Type 0} (k : Text) → lookup {V = V} k [] ≡ none
unfolding lookup
lookup-nil k = refl

pub get_delete_lem :
    {V : Type 0} (ks : List Text) (k : Text) (m : List (Text × V))
    → lookup k (keep_keys (λ j. not (member j ks)) m) ≡ (if member k ks then none else lookup k m)
get_delete_lem ks k m = rw (lookup-keep_keys (λ j. not (member j ks)) k m) (ground arith)

-- A cache as an association list.
abbrev pub list_cache : (V : Type 0) → Cache V
list_cache V = record {
  State = List (Text × V);
  new_cache = [];
  get = lookup;
  set = insert;
  get_all = λ m. m;
  delete_all = λ ks m. (keep_keys (λ j. not (member j ks)) m, keys_deleted ks m);
  clear = λ m. [];
  get_set = lookup-insert;
  get_new_cache = lookup-nil;
  get_clear = λ k m. lookup-nil k;
  lookup_get_all = λ k m. refl;
  get_delete_all = get_delete_lem;
}
