-- ===== src/Clients/Choice.antt =====
-- Which options a client has (Client_options_parser of mysqlx_client.cc).
use pecl_database_mysql_xdev.Common.{
  ℕ, ◌≤◌, ◌≡◌, refl, sym, ap, subst, ◌∙◌, ◌↔◌, inl, inr, leb, Bool, true, false, Bool-cases,
  if◌then◌else◌, List, [], ◌∷◌, Option, none, some, Result, ok, err, ◌>>=◌, Bytes, All, ℤ, pos,
  negsuc, arith,
}
use pecl_database_mysql_xdev.Pool.{Options, default_options}
use pecl_database_mysql_xdev.Clients.{
  OptionValue, null, other, boolean, long, object, Thrown, not_recognized, not_supported,
  enabled_name, max_size_name, max_idle_time_name, queue_timeout_name, is_allowed, verify,
  get_property, to_int32, checked, assign_bool, assign_int, assign_options, unless_thrown,
  run_parser,
}

-- A Boolean option: left out, or given.
pub data Switched : Bool → OptionValue → Bool → Type 0 where
  kept : {old : Bool} → Switched old null old
  switched : {old b : Bool} → Switched old (boolean b) b

-- A number: left out, or given by a number that is not too small when it is cast to 32 bits.
pub data Chosen (least : ℕ) : ℕ → OptionValue → ℕ → Type 0 where
  left_out : {old : ℕ} → Chosen least old null old
  given : {old n : ℕ} → {z : ℤ} → to_int32 z ≡ pos n → least ≤ n → Chosen least old (long z) n

ok-value {ℓ} : {A : Type ℓ} {a b : A} → (let r : Result Thrown A = ok a in r) ≡ ok b → a ≡ b
ok-value e = cc

assign_bool-Switched :
    (name : Bytes) (old b : Bool) (v : OptionValue)
    → assign_bool name old v ≡ ok b
    → Switched old v b
assign_bool-Switched name old b null e = subst (λ (x : Bool). Switched old null x) (ok-value e) kept
assign_bool-Switched name old b (boolean c) e =
    subst (λ (x : Bool). Switched old (boolean c) x) (ok-value e) switched
assign_bool-Switched name old b (long z) e = absurd cc
assign_bool-Switched name old b other e = absurd cc

Switched-assign_bool :
    (name : Bytes) (old b : Bool) (v : OptionValue)
    → Switched old v b
    → assign_bool name old v ≡ ok b
Switched-assign_bool name old _ _ kept = refl
Switched-assign_bool name old _ _ switched = refl

if_ok :
    (name : Bytes) (least n k : ℕ) (c : Bool)
    → leb least k ≡ c
    → (if c then ok k else err (not_supported name)) ≡ ok n
    → (pos k ≡ pos n) × (least ≤ n)
if_ok name least n k true c e = let same = ok-value e in (ap pos same, ground arith)
if_ok name least n k false c e = absurd cc

checked-ok :
    (name : Bytes) (least n : ℕ) (z : ℤ) → checked name least z ≡ ok n → (z ≡ pos n) × (least ≤ n)
checked-ok name least n (pos k) e = if_ok name least n k (leb least k) refl e
checked-ok name least n (negsuc k) e = absurd cc

assign_int-Chosen :
    (name : Bytes) (least old n : ℕ) (v : OptionValue)
    → assign_int name least old v ≡ ok n
    → Chosen least old v n
assign_int-Chosen name least old n null e =
    subst (λ (x : ℕ). Chosen least old null x) (ok-value e) left_out
assign_int-Chosen name least old n (long z) e =
    let r = checked-ok name least n (to_int32 z) e in given r.0 r.1
assign_int-Chosen name least old n (boolean c) e = absurd cc
assign_int-Chosen name least old n other e = absurd cc

Chosen-assign_int :
    (name : Bytes) (least old n : ℕ) (v : OptionValue)
    → Chosen least old v n
    → assign_int name least old v ≡ ok n
Chosen-assign_int name least old _ _ left_out = refl
Chosen-assign_int name least old n _ (given e le) =
    let large : leb least n ≡ true = ground arith in
    ap (λ (z : ℤ). checked name least z) e ∙ rw large refl

bind-ok {ℓ κ} :
    {A : Type ℓ} {B : Type κ} (r : Result Thrown A) (f : A → Result Thrown B) (b : B)
    → (r >>= f) ≡ ok b
    → (a : A) × (r ≡ ok a) × (f a ≡ ok b)
bind-ok (ok a) f b e = (a, refl, e)
bind-ok (err t) f b e = absurd cc

-- What the options of an object are, the defaults being `old`.
pub record Chooses (fs : List (Bytes × OptionValue)) (old o : Options) : Type 0 where
  pub enabled : Switched old.enabled (get_property enabled_name fs) o.enabled
  pub size : Chosen 1 old.max_size (get_property max_size_name fs) o.max_size
  pub idle : Chosen 0 old.max_idle_time (get_property max_idle_time_name fs) o.max_idle_time
  pub timeout : Chosen 0 old.queue_timeout (get_property queue_timeout_name fs) o.queue_timeout

assign_options-Chooses :
    (fs : List (Bytes × OptionValue)) (old o : Options)
    → assign_options fs old ≡ ok o
    → Chooses fs old o
unfolding assign_options
assign_options-Chooses fs old o e =
    let b = bind-ok (assign_bool enabled_name old.enabled (get_property enabled_name fs)) _ o e in
    let s =
      bind-ok (assign_int max_size_name 1 old.max_size (get_property max_size_name fs)) _ o b.2 in
    let i =
      bind-ok
        (assign_int max_idle_time_name 0 old.max_idle_time (get_property max_idle_time_name fs)) _ o
        s.2 in
    let t =
      bind-ok
        (assign_int queue_timeout_name 0 old.queue_timeout (get_property queue_timeout_name fs)) _ o
        i.2 in
    let whole = ok-value t.2 in
    subst (λ (x : Options). Chooses fs old x) whole
      (record {
        enabled =
            assign_bool-Switched enabled_name old.enabled b.0 (get_property enabled_name fs) b.1;
        size =
            assign_int-Chosen max_size_name 1 old.max_size s.0 (get_property max_size_name fs) s.1;
        idle =
            assign_int-Chosen max_idle_time_name 0 old.max_idle_time i.0
              (get_property max_idle_time_name fs) i.1;
        timeout =
            assign_int-Chosen queue_timeout_name 0 old.queue_timeout t.0
              (get_property queue_timeout_name fs) t.1;
      })

Chooses-assign_options :
    (fs : List (Bytes × OptionValue)) (old o : Options)
    → Chooses fs old o
    → assign_options fs old ≡ ok o
unfolding assign_options
Chooses-assign_options fs old o v =
    let b =
      Switched-assign_bool enabled_name old.enabled o.enabled (get_property enabled_name fs)
        v.enabled in
    let s =
      Chosen-assign_int max_size_name 1 old.max_size o.max_size (get_property max_size_name fs)
        v.size in
    let i =
      Chosen-assign_int max_idle_time_name 0 old.max_idle_time o.max_idle_time
        (get_property max_idle_time_name fs) v.idle in
    let t =
      Chosen-assign_int queue_timeout_name 0 old.queue_timeout o.queue_timeout
        (get_property queue_timeout_name fs) v.timeout in
    rw (b, s, i, t) refl

abbrev pub IsAllowed : Bytes × OptionValue → Type 0
IsAllowed f = is_allowed f.0 ≡ true

verify-All : (fs : List (Bytes × OptionValue)) → verify fs ≡ none → All IsAllowed fs
unfolding verify
verify-All [] e = tt
verify-All ((name, v) ∷ fs) e = elim (Bool-cases (is_allowed name)) [
  | inl allowed ↦ (
    allowed,
    verify-All fs
        (sym (ap (λ (c : Bool). if c then verify fs else some (not_recognized name)) allowed) ∙ e),
  )
  | inr refused ↦ absurd (
      let thrown =
        sym (ap (λ (c : Bool). if c then verify fs else some (not_recognized name)) refused) ∙ e in
      cc)
]

All-verify : (fs : List (Bytes × OptionValue)) → All IsAllowed fs → verify fs ≡ none
unfolding verify
All-verify [] h = refl
All-verify ((name, v) ∷ fs) h =
    ap (λ (c : Bool). if c then verify fs else some (not_recognized name)) h.0 ∙ All-verify fs h.1

passed :
    (t : Option Thrown) (r : Result Thrown Options) (o : Options)
    → unless_thrown t r ≡ ok o
    → (t ≡ none) × (r ≡ ok o)
passed none r o e = (refl, e)
passed (some t) r o e = absurd cc

-- An object is accepted with the options `o` exactly where it has no property but the four names,
-- and each option is its default where the property is missing or null, a Boolean for `enabled`,
-- and for the others a number whose value, cast to 32 bits, is the option and not negative, nor 0
-- for maxSize. In all other cases it throws.
pub run_parser-Chooses :
    (fs : List (Bytes × OptionValue)) (o : Options)
    → (run_parser (object fs) ≡ ok o) ↔ (All IsAllowed fs × Chooses fs default_options o)
unfolding run_parser
run_parser-Chooses fs o = (
  (λ e.
      let r = passed (verify fs) (assign_options fs default_options) o e in
      (verify-All fs r.0, assign_options-Chooses fs default_options o r.1)),
  (λ h.
      ap (λ (t : Option Thrown). unless_thrown t (assign_options fs default_options))
        (All-verify fs h.0)
      ∙ Chooses-assign_options fs default_options o h.1),
)
