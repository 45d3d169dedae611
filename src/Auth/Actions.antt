-- ===== src/Auth/Actions.antt =====
-- The texts of the actions.
use mathlib.Core.Option.{some-injective}
use latlng.Prelude.{
  String, Option, some, ◌≡◌, refl, sym, ap, ◌∙◌, ◌↔◌, ◌==◌, ==_iff, string_key, nat_key, Bool-cases,
  inl, inr, if◌then◌else◌,
}
use latlng.Auth.{AuthAction, as_str, parse}
use latlng.Auth.{
  collections_list, collections_create, collections_delete, collections_inspect, objects_read,
  objects_write, objects_delete, queries_read, subscriptions_read, hooks_manage, channels_manage,
  metrics_read, admin_all,
}

parse-as_str : (a : AuthAction) → parse (as_str a) ≡ some a
unfolding parse as_str
parse-as_str collections_list = refl
parse-as_str collections_create = refl
parse-as_str collections_delete = refl
parse-as_str collections_inspect = refl
parse-as_str objects_read = refl
parse-as_str objects_write = refl
parse-as_str objects_delete = refl
parse-as_str queries_read = refl
parse-as_str subscriptions_read = refl
parse-as_str hooks_manage = refl
parse-as_str channels_manage = refl
parse-as_str metrics_read = refl
parse-as_str admin_all = refl

-- One arm of the match.
arm :
    (s t : String) (b : AuthAction) (rest : Option AuthAction)
    → as_str b ≡ t
    → ((a : AuthAction) → rest ≡ some a → as_str a ≡ s)
    → (a : AuthAction) → (if s == t then some b else rest) ≡ some a
    → as_str a ≡ s
arm s t b rest n r a h = elim (Bool-cases (s == t)) [
  | inl e ↦ ap as_str (some-injective a b (sym h ∙ rw e refl)) ∙ n ∙ sym ((==_iff s t).0 e)
  | inr e ↦ r a (sym (rw e refl) ∙ h)
]

as_str-parse : (s : String) (a : AuthAction) → parse s ≡ some a → as_str a ≡ s
unfolding parse as_str
as_str-parse s = arm s _ collections_list _ refl (
    arm s _ collections_create _ refl (
      arm s _ collections_delete _ refl (
        arm s _ collections_inspect _ refl (
          arm s _ objects_read _ refl (
            arm s _ objects_write _ refl (
              arm s _ objects_delete _ refl (
                arm s _ queries_read _ refl (
                  arm s _ subscriptions_read _ refl (
                    arm s _ hooks_manage _ refl (
                      arm s _ channels_manage _ refl (
                        arm s _ metrics_read _ refl
                          (arm s _ admin_all _ refl (λ a h. cc)))))))))))))

-- An action's text parses to that action, and no other text parses to it.
pub parse_iff : (s : String) (a : AuthAction) → (parse s ≡ some a) ↔ (as_str a ≡ s)
parse_iff s a = (as_str-parse s a, λ e. ap parse (sym e) ∙ parse-as_str a)
