-- ===== src/Ecs/Kept.antt =====
-- What normalization changes, and what it leaves.
use aiguard_siem.Common.{
  ℕ, ◌≡◌, refl, sym, ap, ◌∙◌, Bool, true, false, Option, none, some, List, [], ◌∷◌, Text, codes,
  text_key, text_eq, if◌then◌else◌, find, find-insert, has, Option-cases, inl, inr, arith,
}
use mathlib.Core.Path.{subst}
use aiguard_siem.Events.{Platform, Event, FieldValue, set_field}
use aiguard_siem.Ecs.Normalizer.{
  EcsFieldMapping, EcsNormalizer, put_ecs, transformed, store_value, map_value, normalize_from,
  normalize,
}

module _ {D : Type 0} where
  -- The event is the same one: its identity and its origin stay, and it loses no custom field.
  pub record Keeps (e d : Event D) : Type 0 where
    pub id : d.id ≡ e.id
    pub timestamp : d.timestamp ≡ e.timestamp
    pub source_type : d.source_type ≡ e.source_type
    pub user_name : d.user_name ≡ e.user_name
    pub raw_data : d.raw_data ≡ e.raw_data
    pub fields :
        (k : Text) → has (find k e.custom_fields) ≡ true → has (find k d.custom_fields) ≡ true

  abbrev core : Event D → ℕ × ℕ × Text × Text × Text × List (Text × FieldValue D)
  core e = (e.id, e.timestamp, e.source_type, e.user_name, e.raw_data, e.custom_fields)

  -- Events that agree on all this.
  Keeps-of : (e d : Event D) → core d ≡ core e → Keeps e d
  Keeps-of e d h = record {
    id = ap (λ c. c.0) h;
    timestamp = ap (λ c. c.1) h;
    source_type = ap (λ c. c.2) h;
    user_name = ap (λ c. c.3) h;
    raw_data = ap (λ c. c.4) h;
    fields = λ k g. subst (λ m. has (find k m) ≡ true) (sym (ap (λ c. c.5) h)) g;
  }

  Keeps-refl : (e : Event D) → Keeps e e
  Keeps-refl e = record {
    id = refl;
    timestamp = refl;
    source_type = refl;
    user_name = refl;
    raw_data = refl;
    fields = λ k h. h;
  }

  Keeps-trans : (a b c : Event D) → Keeps a b → Keeps b c → Keeps a c
  Keeps-trans a b c f g = record {
    id = g.id ∙ f.id;
    timestamp = g.timestamp ∙ f.timestamp;
    source_type = g.source_type ∙ f.source_type;
    user_name = g.user_name ∙ f.user_name;
    raw_data = g.raw_data ∙ f.raw_data;
    fields = λ k h. g.fields k (f.fields k h);
  }

  set_field-Keeps : (e : Event D) (f : Text) (v : FieldValue D) → Keeps e (set_field e f v)
  unfolding set_field
  set_field-Keeps e f v = record {
    id = refl;
    timestamp = refl;
    source_type = refl;
    user_name = refl;
    raw_data = refl;
    fields = λ k h. ground (arith, find-insert f k v e.custom_fields);
  }

  -- A member of the event that is written.
  Keeps-if : (b : Bool) (e c d : Event D) → Keeps e c → Keeps e d → Keeps e (if b then c else d)
  Keeps-if true e c d f g = f
  Keeps-if false e c d f g = g

  put_ecs-Keeps : (f : Text) (v : FieldValue D) (e : Event D) → Keeps e (put_ecs f v e)
  unfolding put_ecs
  put_ecs-Keeps f v e = Keeps-if (text_eq f (codes "source.ip")) e _ _ (Keeps-of e _ refl) (
      Keeps-if (text_eq f (codes "destination.ip")) e _ _ (Keeps-of e _ refl) (
        Keeps-if (text_eq f (codes "source.port")) e _ _ (Keeps-of e _ refl) (
          Keeps-if (text_eq f (codes "destination.port")) e _ _ (Keeps-of e _ refl) (
            Keeps-if (text_eq f (codes "host.name")) e _ _ (Keeps-of e _ refl) (
              Keeps-if (text_eq f (codes "process.name")) e _ _ (Keeps-of e _ refl) (
                Keeps-if (text_eq f (codes "event.severity")) e _ _ (Keeps-of e _ refl) (
                  Keeps-if (text_eq f (codes "event.category")) e _ _ (Keeps-of e _ refl) (
                    Keeps-if (text_eq f (codes "network.transport")) e _ _ (Keeps-of e _ refl) (
                      Keeps-if (text_eq f (codes "network.bytes")) e _ _ (Keeps-of e _ refl) (
                        Keeps-if (text_eq f (codes "network.packets")) e _ _ (Keeps-of e _ refl)
                          (set_field-Keeps e f v)))))))))))

module _ (pf : Platform) where
  open pf use {Double}

  store_value-Keeps :
      (f : Text) (o : Option (FieldValue Double)) (e : Event Double)
      (next : Event Double → Event Double × Bool)
      → ((d : Event Double) → Keeps d (next d).0)
      → Keeps e (store_value pf f o e next).0
  unfolding store_value
  store_value-Keeps f none e next h = Keeps-refl e
  store_value-Keeps f (some v) e next h =
      Keeps-trans e (put_ecs f v e) (next (put_ecs f v e)).0 (put_ecs-Keeps f v e)
        (h (put_ecs f v e))

  map_value-Keeps :
      (m : EcsFieldMapping Double) (o : Option (FieldValue Double)) (e : Event Double)
      (next : Event Double → Event Double × Bool)
      → ((d : Event Double) → Keeps d (next d).0)
      → Keeps e (map_value pf m o e next).0
  unfolding map_value
  map_value-Keeps m none e next h = h e
  map_value-Keeps m (some v) e next h =
      store_value-Keeps m.ecs_field (transformed pf m.transform v) e next h

  normalize_from-Keeps :
      (ms : List (EcsFieldMapping Double)) (e : Event Double) → Keeps e (normalize_from pf ms e).0
  unfolding normalize_from
  normalize_from-Keeps [] e = Keeps-refl e
  normalize_from-Keeps (m ∷ ms) e =
      map_value-Keeps m (find m.source_field e.custom_fields) e (normalize_from pf ms)
        (normalize_from-Keeps ms)

  -- Normalization, whatever the mappings and their transformations are and even when one throws, leaves
  -- an event its id, time, source type, user name and raw data, and every custom field that it had.
  pub normalize-Keeps :
      (source_type : Text) (c : EcsNormalizer Double) (e : Event Double)
      → Keeps e (normalize pf source_type c e).0
  unfolding normalize
  normalize-Keeps source_type c e = elim (Option-cases (find source_type c.mappings)) [
    | inl unknown ↦ rw (normalize, unknown) (Keeps-refl e)
    | inr known ↦ rw (normalize, known.1) (normalize_from-Keeps known.0 e)
  ]
