-- ===== src/Log/GroupLaws.antt =====
-- What `group_by_txn` of bin/python/log_report.py groups.
use xbridge_witness.Base.{
  ◌≡◌, refl, sym, ◌∙◌, ap, String, Bool, true, false, ◌&&◌, eq_iff, eq_refl, List, [], ◌∷◌, ◌++◌,
  ◌==◌, Result, ok, err, if◌then◌else◌, OnOk, OnOk-ok, OnOk-bind_eq, Bool-cases, inl, inr, subst,
}
use xbridge_witness.Base.Dict.{Dict, lookup, insert, lookup-insert}
use xbridge_witness.Value.{Fields}
use xbridge_witness.Log.Hashes.{Upper, has_256bit_hex_field}
use xbridge_witness.Log.UniqueHashes.{mem_text, Unique, Unique-has_256bit_hex_field}
use xbridge_witness.Log.Group.{
  Logs, Groups, or_empty, append_log, append_each, group_items, group_servers, group_by_txn,
}

-- The items that are grouped under a hash and a server.
unfoldable pub items_of : String → String → Groups → List Fields
items_of h server g = or_empty (lookup server (or_empty (lookup h g)))

append-empty : {A : Type 0} (l : List A) → l ++ [] ≡ l
append-empty [] = refl
append-empty (x ∷ l) = ap (λ t. x ∷ t) (append-empty l)

append_assoc : {A : Type 0} (l m n : List A) → (l ++ m) ++ n ≡ l ++ (m ++ n)
append_assoc [] m n = refl
append_assoc (x ∷ l) m n = ap (λ t. x ∷ t) (append_assoc l m n)

abbrev when : Bool → Fields → List Fields
when true item = item ∷ []
when false item = []

-- The dictionary of a hash after an item of it was appended.
abbrev with_item : String → String → Fields → Groups → Dict (List Fields)
with_item h server item g =
    let logs = or_empty (lookup h g) in
    insert server (or_empty (lookup server logs) ++ item ∷ []) logs

same_both :
    (k s : String) (item : Fields) (g : Groups)
    → items_of k s (append_log k s item g) ≡ items_of k s g ++ item ∷ []
unfolding items_of append_log
same_both k s item g =
    rw
      (
        lookup-insert k k (with_item k s item g) g,
        eq_refl k,
        lookup-insert s s (or_empty (lookup s (or_empty (lookup k g))) ++ item ∷ [])
            (or_empty (lookup k g)),
        eq_refl s,
      )
      refl

same_hash :
    (k server s : String) (item : Fields) (g : Groups)
    → (server == s) ≡ false
    → items_of k s (append_log k server item g) ≡ items_of k s g
unfolding items_of append_log
same_hash k server s item g f =
    rw
      (
        lookup-insert k k (with_item k server item g) g,
        eq_refl k,
        lookup-insert server s (or_empty (lookup server (or_empty (lookup k g))) ++ item ∷ [])
            (or_empty (lookup k g)),
        f,
      )
      refl

other_hash :
    (h server k s : String) (item : Fields) (g : Groups)
    → (h == k) ≡ false
    → items_of k s (append_log h server item g) ≡ items_of k s g
unfolding items_of append_log
other_hash h server k s item g e = rw (lookup-insert h k (with_item h server item g) g, e) refl

items_of-append_log :
    (h server k s : String) (item : Fields) (g : Groups)
    → items_of k s (append_log h server item g)
      ≡ items_of k s g ++ when (h == k && server == s) item
items_of-append_log h server k s item g = elim (Bool-cases (h == k)) [
  | inl e ↦ elim (Bool-cases (server == s)) [
    | inl f ↦
        rw ((eq_iff h k).0 e, (eq_iff server s).0 f, eq_refl k, eq_refl s) (same_both k s item g)
    | inr f ↦
        rw ((eq_iff h k).0 e, eq_refl k, f) (same_hash k server s item g f ∙ sym (append-empty _))
  ]
  | inr e ↦ rw e (other_hash h server k s item g e ∙ sym (append-empty _))
]

-- A hash that comes once is grouped once.
items_of-append_each :
    (hs : List String) (server k s : String) (item : Fields) (g : Groups)
    → Unique hs
    → items_of k s (append_each hs server item g)
      ≡ items_of k s g ++ when (mem_text k hs && server == s) item
unfolding append_each
items_of-append_each [] server k s item g u = sym (append-empty _)
items_of-append_each (h ∷ hs) server k s item g (n, u) =
    items_of-append_each hs server k s item (append_log h server item g) u
    ∙ ap (λ l. l ++ when (mem_text k hs && server == s) item)
        (items_of-append_log h server k s item g)
    ∙ append_assoc (items_of k s g) _ _
    ∙ ap (λ l. items_of k s g ++ l)
        (elim (Bool-cases (h == k)) [
          | inl e ↦ rw (e, ← ((eq_iff h k).0 e), n) (append-empty _)
          | inr e ↦ rw e refl
        ])

-- Whether a log item has a hash, by the search.
abbrev found_in : String → Result (List String) → Bool
found_in k (ok hs) = mem_text k hs
found_in k (err e) = false

-- The items that have a hash, in their order.
unfoldable pub matching : Upper → String → List Fields → List Fields
matching other k [] = []
matching other k (item ∷ items) =
    when (found_in k (has_256bit_hex_field other item)) item ++ matching other k items

-- The items of a server that have a hash, in their order.
unfoldable pub logged : Upper → String → String → Logs → List Fields
logged other k s [] = []
logged other k s ((server, items) ∷ logs) =
    (if server == s then matching other k items else []) ++ logged other k s logs

abbrev Grouped : String → String → List Fields → Groups → Groups → Type 0
Grouped k s more g g' = items_of k s g' ≡ items_of k s g ++ more

one_more :
    (m b : Bool) (item : Fields) (l : List Fields)
    → when (m && b) item ++ (if b then l else []) ≡ (if b then when m item ++ l else [])
one_more true true item l = refl
one_more true false item l = refl
one_more false true item l = refl
one_more false false item l = refl

none_more : (b : Bool) (l : List Fields) → l ≡ l ++ (if b then [] else [])
none_more true l = sym (append-empty l)
none_more false l = sym (append-empty l)

-- Two steps of the grouping, one after the other.
Grouped-trans :
    (k s : String) (more rest : List Fields) (g g' g'' : Groups)
    → Grouped k s more g g'
    → Grouped k s rest g' g''
    → Grouped k s (more ++ rest) g g''
Grouped-trans k s more rest g g' g'' e f =
    f ∙ ap (λ l. l ++ rest) e ∙ append_assoc (items_of k s g) more rest

items_of-group_items :
    (other : Upper) (server k s : String) (items : List Fields) (g : Groups)
    → OnOk
        (Grouped k s (if server == s then matching other k items else []) g)
        (group_items other server items g)
unfolding group_items matching
items_of-group_items other server k s [] g = OnOk-ok g (none_more (server == s) (items_of k s g))
items_of-group_items other server k s (item ∷ items) g =
    OnOk-bind_eq (has_256bit_hex_field other item) _ λ hs e. record {
      at = λ g' q. rw e (
          subst (λ more. Grouped k s more g g')
            (one_more (mem_text k hs) (server == s) item (matching other k items))
            (Grouped-trans k s (when (mem_text k hs && server == s) item) _ g
              (append_each hs server item g) g'
              (items_of-append_each hs server k s item g
                ((Unique-has_256bit_hex_field other item).at hs e))
              ((items_of-group_items other server k s items (append_each hs server item g)).at g'
                q)));
    }

items_of-group_servers :
    (other : Upper) (k s : String) (logs : Logs) (g : Groups)
    → OnOk (Grouped k s (logged other k s logs) g) (group_servers other logs g)
unfolding group_servers logged
items_of-group_servers other k s [] g = OnOk-ok g (sym (append-empty _))
items_of-group_servers other k s ((server, items) ∷ logs) g =
    OnOk-bind_eq (group_items other server items g) _ λ g₁ e. record {
      at = λ g₂ q.
          Grouped-trans k s _ (logged other k s logs) g g₁ g₂
            ((items_of-group_items other server k s items g).at g₁ e)
            ((items_of-group_servers other k s logs g₁).at g₂ q);
    }

-- What `group_by_txn` returns has, under every hash and every server, exactly the log items of that
-- server in which the search finds the hash, each once and in the order of the log.
pub items_of-group_by_txn :
    (other : Upper) (k s : String) (logs : Logs) (g : Groups)
    → group_by_txn other logs ≡ ok g
    → items_of k s g ≡ logged other k s logs
unfolding group_by_txn logged items_of
items_of-group_by_txn other k s logs g e = (items_of-group_servers other k s logs []).at g e
