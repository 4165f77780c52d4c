-- ===== src/Http/Envelopes.antt =====
-- The shape of the answers of handlers.
use learn_nestjs.Common.{
  ℕ, ◌≡◌, inl, inr, refl, subst, Bool, true, false, Option, some, if◌then◌else◌, arith, Bool-cases,
}
use learn_nestjs.Common.Text.{Text, codes, text_eq, text_eq_sound, is_empty}
use learn_nestjs.Http.{
  Value, undefined, boolean, number, string, array, object, Items, Fields, no_fields, field,
  has_field, get_field,
}
use learn_nestjs.Http.Envelope.{
  is_envelope, Parts, parts_of, envelope, message_or_success, intercept, paginated,
}

envelope-is_envelope :
    (status : ℕ) (timestamp : Text) (p : Parts) → is_envelope (envelope status timestamp p) ≡ true
unfolding is_envelope envelope has_field text_eq
envelope-is_envelope status timestamp p = refl

-- Every answer is an object with `success`, `statusCode` and `message`.
intercept-is_envelope :
    (decorator_message : Option Text) (status : ℕ) (timestamp : Text) (v : Value)
    → is_envelope (intercept decorator_message status timestamp v) ≡ true
unfolding intercept
intercept-is_envelope decorator_message status timestamp v = ground (
  arith,
  envelope-is_envelope status timestamp (parts_of (message_or_success decorator_message) v),
)

-- Every answer that leaves the interceptor is an envelope, an object with `success`, `statusCode` and
-- `message`, whatever the handler returned; and a second interceptor, with any message, status and
-- time, leaves it as it is.
pub intercept-intercept :
    (decorator_message again : Option Text) (status other_status : ℕ) (timestamp later : Text)
    (v : Value)
    → let answer = intercept decorator_message status timestamp v in
      (is_envelope answer ≡ true) × (intercept again other_status later answer ≡ answer)
unfolding intercept
intercept-intercept decorator_message again status other_status timestamp later v =
    let good = intercept-is_envelope decorator_message status timestamp v in
    (good, ground (arith, good))

-- The fields of an answer.
abbrev pub read : Text → Value → Value
read k (object fs) = get_field k fs
read k _ = undefined

-- A page as `PaginationUtil.paginate` returns it.
abbrev pub page_value : Items → Fields → Value
page_value vs meta =
    object (field (codes "data") (array vs) (field (codes "meta") (object meta) no_fields))

-- The answer with a page.
unfoldable page_envelope : Items → Fields → Text → Text → Value
page_envelope vs meta message timestamp =
    envelope 200 timestamp
      (record { message = string message; data_part = array vs; meta = object meta })

intercept-page :
    (message timestamp : Text) (vs : Items) (meta : Fields)
    → is_empty message ≡ false
    → intercept (some message) 200 timestamp (page_value vs meta)
      ≡ page_envelope vs meta message timestamp
unfolding page_envelope intercept is_envelope parts_of has_field get_field text_eq
intercept-page message timestamp vs meta named = ground arith

-- A field that the two answers have at different places.
same_field :
    (key k message timestamp : Text) (vs : Items) (meta : Fields)
    → text_eq key k ≡ true
    → read key (page_envelope vs meta message timestamp)
      ≡ read key (paginated vs meta message timestamp)
    → read k (page_envelope vs meta message timestamp)
      ≡ read k (paginated vs meta message timestamp)
same_field key k message timestamp vs meta e h =
    subst
      (λ x.
        read x (page_envelope vs meta message timestamp)
        ≡ read x (paginated vs meta message timestamp))
      (text_eq_sound key k e) h

-- Tests that fail do not matter, wherever they stand.
reordered :
    (a c d f : Bool) {b e : Bool} (p q r s t u : Value)
    → b ≡ false
    → e ≡ false
    → (if a
        then p
        else if b
        then q
        else if c
        then r
        else if d
        then s
        else if e
        then t
        else if f
        then u
        else undefined)
      ≡ (if a
          then p
          else if c
          then r
          else if d
          then s
          else if f
          then u
          else if b
          then q
          else if e
          then t
          else undefined)
reordered a c d f p q r s t u hb he = ground arith

same_fields :
    (k message timestamp : Text) (vs : Items) (meta : Fields)
    → read k (page_envelope vs meta message timestamp)
      ≡ read k (paginated vs meta message timestamp)
unfolding page_envelope envelope paginated get_field text_eq
same_fields k message timestamp vs meta = elim (Bool-cases (text_eq (codes "statusCode") k)) [
  | inl e ↦ same_field (codes "statusCode") k message timestamp vs meta e refl
  | inr apart ↦ elim (Bool-cases (text_eq (codes "timestamp") k)) [
    | inl e ↦ same_field (codes "timestamp") k message timestamp vs meta e refl
    | inr other ↦
        reordered (text_eq (codes "success") k) (text_eq (codes "message") k)
          (text_eq (codes "data") k) (text_eq (codes "meta") k) (boolean true) (number 200)
          (string message) (array vs) (string timestamp) (object meta) apart other
  ]
]

-- A handler that returns a page with its `meta` is answered, field by field, as `ResponseUtil.paginated`
-- would build the answer, for a status of 200 and a message that is not empty.
pub intercept-paginated :
    (message timestamp k : Text) (vs : Items) (meta : Fields)
    → is_empty message ≡ false
    → read k (intercept (some message) 200 timestamp (page_value vs meta))
      ≡ read k (paginated vs meta message timestamp)
intercept-paginated message timestamp k vs meta named =
    ground (
      arith,
      intercept-page message timestamp vs meta named,
      same_fields k message timestamp vs meta,
    )
