-- ===== src/Validation/Violations.antt =====
-- The violations that flattened validator output leaves by path.
use api_starter.Base.{
  String, ◌<>◌, ◌≡◌, refl, sym, List, [], ◌∷◌, ◌++◌, map, arith, if◌then◌else◌, ◌==◌, true,
}
use mathlib.Core.List.{append_assoc, append-nil}
use api_starter.Base.Decimal.{show_ℕ}
use api_starter.Base.Dict
use api_starter.Errdef.{Error, invalid, push_violation}
use api_starter.Errdef.Laws.{violations_of, is_validation, violations_of-push_violation}
use api_starter.Validation.{
  FieldError, ValidationErrors, done, entry, ErrorsKind, field, struct, list, Elements, end,
  element, message_for, path_of, push_all, collect, collect_kind, collect_elements, to_error,
}

-- Each error with its full path, as a plain list.
unfoldable mutual
  pub flatten : ValidationErrors → String → List (String × FieldError)
  flatten done prefix = []
  flatten (entry name kind rest) prefix =
      flatten_kind kind (path_of prefix name) ++ flatten rest prefix

  pub flatten_kind : ErrorsKind → String → List (String × FieldError)
  flatten_kind (field es) path = map (λ e. (path, e)) es
  flatten_kind (struct nested) path = flatten nested path
  flatten_kind (list items) path = flatten_elements items path

  pub flatten_elements : Elements → String → List (String × FieldError)
  flatten_elements end path = []
  flatten_elements (element index nested rest) path =
      flatten nested (path <> "." <> show_ℕ index) ++ flatten_elements rest path

-- The messages of the errors at one path.
abbrev pub messages_at : String → List (String × FieldError) → List String
messages_at path [] = []
messages_at path ((p, e) ∷ rest) =
    if p == path then message_for e ∷ messages_at path rest else messages_at path rest

messages_at-append :
    (path : String) (xs ys : List (String × FieldError))
    → messages_at path (xs ++ ys) ≡ messages_at path xs ++ messages_at path ys
messages_at-append path [] ys = refl
messages_at-append path ((p, e) ∷ xs) ys = ground (arith, messages_at-append path xs ys)

-- A validation error becomes another, whose violations are its own and then those of the list.
record Adds (t u : Error) (xs : List (String × FieldError)) : Type 0 where
  kept : is_validation u ≡ true
  added : (path : String) → violations_of u path ≡ violations_of t path ++ messages_at path xs

Adds-nil : (t : Error) → is_validation t ≡ true → Adds t t []
Adds-nil t h = record { kept = h; added = λ path. sym (append-nil _) }

Adds-append :
    {t u v : Error} {xs ys : List (String × FieldError)}
    → Adds t u xs
    → Adds u v ys
    → Adds t v (xs ++ ys)
Adds-append {t} {xs} {ys} a b = record {
  kept = b.kept;
  added = λ path.
      rw (b.added path, a.added path, messages_at-append path xs ys)
        (append_assoc (violations_of t path) (messages_at path xs) (messages_at path ys));
}

Adds-push :
    (t : Error) (path : String) (e : FieldError)
    → is_validation t ≡ true
    → Adds t (push_violation t path (message_for e)) ((path, e) ∷ [])
unfolding push_violation
Adds-push t path e h = record {
  kept = ground arith;
  added = λ other. ground (
    arith,
    violations_of-push_violation t path (message_for e) other,
    append-nil (violations_of t other),
  );
}

Adds-push_all :
    (path : String) (es : List FieldError) (t : Error)
    → is_validation t ≡ true
    → Adds t (push_all path es t) (map (λ e. (path, e)) es)
unfolding push_all
Adds-push_all path [] t h = Adds-nil t h
Adds-push_all path (e ∷ es) t h =
    let first = Adds-push t path e h in Adds-append first (Adds-push_all path es _ first.kept)

mutual
  unfolding collect flatten

  Adds-collect :
      (es : ValidationErrors) (prefix : String) (t : Error)
      → is_validation t ≡ true
      → Adds t (collect es prefix t) (flatten es prefix)
  Adds-collect done prefix t h = Adds-nil t h
  Adds-collect (entry name kind rest) prefix t h =
      let first = Adds-collect_kind kind (path_of prefix name) t h in
      Adds-append first (Adds-collect rest prefix _ first.kept)

  Adds-collect_kind :
      (kind : ErrorsKind) (path : String) (t : Error)
      → is_validation t ≡ true
      → Adds t (collect_kind kind path t) (flatten_kind kind path)
  Adds-collect_kind (field es) path t h = Adds-push_all path es t h
  Adds-collect_kind (struct nested) path t h = Adds-collect nested path t h
  Adds-collect_kind (list items) path t h = Adds-collect_elements items path t h

  Adds-collect_elements :
      (items : Elements) (path : String) (t : Error)
      → is_validation t ≡ true
      → Adds t (collect_elements items path t) (flatten_elements items path)
  Adds-collect_elements end path t h = Adds-nil t h
  Adds-collect_elements (element index nested rest) path t h =
      let first = Adds-collect nested (path <> "." <> show_ℕ index) t h in
      Adds-append first (Adds-collect_elements rest path _ first.kept)

pub to_error-is_validation : (errors : ValidationErrors) → is_validation (to_error errors) ≡ true
unfolding to_error
to_error-is_validation errors =
    (Adds-collect errors "" (invalid "failed payload validation") refl).kept

-- The error made of a validator's output holds, at each path, exactly the messages of the errors
-- that stand at that path in the tree, in the order in which the tree is walked.
pub violations_of-to_error :
    (errors : ValidationErrors) (path : String)
    → violations_of (to_error errors) path ≡ messages_at path (flatten errors "")
unfolding to_error Dict.lookup
violations_of-to_error errors path =
    (Adds-collect errors "" (invalid "failed payload validation") refl).added path
