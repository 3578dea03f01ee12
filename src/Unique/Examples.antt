-- ===== src/Unique/Examples.antt =====
-- Runs of the uniqueness checker over a small cache:
-- cdmp-mini/internal/common/service/unique/checker.go.
use text.Mathlib.Text.{◌==◌ as str_eq}
use cdmp_mini.Base.{◌≡◌, refl, String, true, false, not, Option, none, some, []}
use cdmp_mini.Base.Text.{trim_space}
use cdmp_mini.Base.GoMap.{lookup, insert}
use cdmp_mini.Operation.Types.{new_error, error_text, ok, err}
use cdmp_mini.Operation.Acts.{Act, answered, answer, attempt, after, or_fail, return}
use cdmp_mini.Unique.Config.{
  is_blank, World, System, CheckerConfig, FieldConfig, is_allowed, placeholder, owner_of, is_free,
  maybe_degrade_slow_command,
}
use cdmp_mini.Unique.{
  call, lookup_entity, write_absent, present_or, get_key, set_nx, executed, run_lookup, looked,
  decide, placed, cached, checked, released, ensure_field_unique,
}
use cdmp_mini.Unique.First.{IsCalm, GoesByCache, KeepsCache, verdict, written_by, entry_after}
use cdmp_mini.Unique.Checks.{
  ensure_field_unique_first, ensure_field_unique_fallback, ensure_field_unique-excludes,
}

-- An entity is the name of its owner, and nobody has the field.
abbrev free_world : World String
free_world = record {
  net = λ n. answered;
  duration = λ n. n;
  others = λ n cache. cache;
  lookups = λ n. ok "";
}

free_world-IsCalm : IsCalm free_world
free_world-IsCalm = record { answers = λ n. refl; alone = λ n cache. refl }

-- One more attempt after a failure.
abbrev twice : Act System String → Act System String
twice act = attempt act (λ r. elim r [ ok entity ↦ return entity | err e ↦ act ])

abbrev checker : CheckerConfig String
checker = record {
  has_cache = true;
  placeholder_fallback = "RATE_LIMIT_PREVENTION";
  cache_ready = true;
  degrade_active = false;
  ensure_placeholder = none;
  retry = some twice;
  should_degrade = λ e. str_eq (error_text e) "database down";
  should_release_placeholder = some (λ e. not (str_eq (error_text e) "taken"));
  latency_threshold = 0;
  latency_reason = "";
  is_not_found = λ e. false;
  is_cache_miss = λ e. true;
  cache_miss = new_error "redis: nil";
  zero = "";
  equal_fold = str_eq;
}

-- The check of an address by the user of a name.
abbrev email_of : String → FieldConfig String
email_of owner = record {
  allowed_owner = owner;
  cache_key = "email:a@b.c";
  placeholder_value = "";
  has_lookup = true;
  extract_owner = some (λ o. o);
  conflict = new_error "taken";
  is_allowed_owner = none;
  skip_placeholder_lookup = none;
  degrade_reason = "";
}

goes : (owner : String) → GoesByCache checker (email_of owner)
unfolding trim_space
goes owner = record { keyed = refl; with_cache = refl; undegraded = refl }

keeps : (owner : String) → KeepsCache checker (email_of owner) free_world (λ n. ok "")
unfolding run_lookup lookup_entity executed attempt after
keeps owner = record {
  finds = λ s. refl;
  same_cache = λ s. refl;
  same_hold = λ s. refl;
  ensures = λ cache stored. stored;
}

abbrev start : System
start = record { cache = []; degraded = []; acquired = false; elapsed = 0; looks = 0 }

alice_full : is_blank (placeholder checker (email_of "alice")) ≡ false
unfolding placeholder trim_space
alice_full = refl

alice_own : is_allowed checker (email_of "alice") (placeholder checker (email_of "alice")) ≡ true
unfolding placeholder trim_space is_allowed
alice_own = refl

bob_foreign : is_allowed checker (email_of "bob") (placeholder checker (email_of "alice")) ≡ false
unfolding placeholder trim_space is_allowed
bob_foreign = refl

none_full : is_blank (placeholder checker (email_of "")) ≡ false
unfolding placeholder trim_space
none_full = refl

none_foreign : is_allowed checker (email_of "") (placeholder checker (email_of "")) ≡ false
unfolding placeholder trim_space is_allowed
none_foreign = refl

absent : ◌≡◌ {A = Option String} (lookup "email:a@b.c" []) none
unfolding lookup
absent = refl

ensure_field_unique_first_example :
    let (s', result) = ensure_field_unique checker (email_of "alice") free_world start in
    (result ≡ verdict checker (email_of "alice") (ok ""))
    × (lookup "email:a@b.c" s'.cache
        ≡ entry_after checker result (written_by checker (email_of "alice") (ok "")))
ensure_field_unique_first_example =
    ensure_field_unique_first checker (email_of "alice") free_world (λ n. ok "") start
      (goes "alice") free_world-IsCalm (keeps "alice") alice_full alice_own absent

ensure_field_unique_fallback_example :
    let (s', result) = ensure_field_unique checker (email_of "") free_world start in
    (result ≡ err (new_error "taken"))
    × (lookup "email:a@b.c" s'.cache ≡ some "RATE_LIMIT_PREVENTION")
unfolding placeholder trim_space error_text
ensure_field_unique_fallback_example =
    ensure_field_unique_fallback checker (email_of "") free_world start (goes "") free_world-IsCalm
      none_full none_foreign refl absent

passed : (ensure_field_unique checker (email_of "alice") free_world start).1 ≡ ok tt
unfolding ensure_field_unique checked get_key present_or call answer attempt after or_fail lookup
    cached set_nx write_absent placed maybe_degrade_slow_command placeholder trim_space decide
    is_allowed run_lookup lookup_entity executed looked is_free owner_of released insert
passed = refl

abbrev second_start : System
second_start = record start {
  cache = (ensure_field_unique checker (email_of "alice") free_world start).0.cache;
}

ensure_field_unique-excludes_example :
    ((ensure_field_unique checker (email_of "bob") free_world second_start).1
      ≡ err (new_error "taken"))
    × ((ensure_field_unique checker (email_of "bob") free_world second_start).0.cache
        ≡ second_start.cache)
ensure_field_unique-excludes_example =
    ensure_field_unique-excludes checker checker (email_of "alice") (email_of "bob") free_world
      free_world (λ n. ok "") start second_start (goes "alice") (goes "bob") free_world-IsCalm
      free_world-IsCalm (keeps "alice") refl alice_full alice_own bob_foreign absent passed refl
