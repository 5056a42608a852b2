-- ===== src/Origin/Forwarding.antt =====
-- internal/origin/puller.go: the headers that a request to an origin carries.
use file_server.Prelude.{
  Str, find, find-put, str_dec, str_dec_refl, IsMap, All, List, [], ◌∷◌, ◌++◌, if◌then◌else◌,
  Option, none, some, ◌≡◌, ◌≢◌, refl, arith, ap, subst, sym, ◌∙◌, ite, if_pos, if_neg,
}
use mathlib.Core.List.{append_assoc, append-nil}
use file_server.Http.{Header, canonical, header_add, values_of}
use file_server.Origin.{hop_by_hop, add_values, copy_headers}

-- What adding values to a key gives.
abbrev appended : Option (List Str) → List Str → Option (List Str)
appended o [] = o
appended o (v ∷ vs) = appended (some (values_of o ++ v ∷ [])) vs

appended-some : (us vs : List Str) → appended (some us) vs ≡ some (us ++ vs)
appended-some us [] = ap some (sym (append-nil us))
appended-some us (v ∷ vs) = appended-some (us ++ v ∷ []) vs ∙ ap some (append_assoc us (v ∷ []) vs)

module _ (j : Str) (same : canonical j ≡ j) where
  find-header_add :
      (k v : Str) (dst : Header)
      → find k (header_add dst j v)
        ≡ ite (str_dec j k) (some (values_of (find j dst) ++ v ∷ [])) (find k dst)
  unfolding header_add
  find-header_add k v dst = rw same (find-put j k (values_of (find j dst) ++ v ∷ []) dst)

  find-add_values :
      (vs : List Str) (dst : Header) → find j (add_values j vs dst) ≡ appended (find j dst) vs
  unfolding add_values
  find-add_values [] dst = refl
  find-add_values (v ∷ vs) dst =
      find-add_values vs (header_add dst j v)
      ∙ ap (λ o. appended o vs) (find-header_add j v dst ∙ str_dec_refl j _ _)

  find-add_values_ne :
      (k : Str) (vs : List Str) (dst : Header) → j ≢ k → find k (add_values j vs dst) ≡ find k dst
  unfolding add_values
  find-add_values_ne k [] dst n = refl
  find-add_values_ne k (v ∷ vs) dst n =
      find-add_values_ne k vs (header_add dst j v) n
      ∙ find-header_add k v dst
      ∙ if_neg (str_dec j k) n (some (values_of (find j dst) ++ v ∷ [])) (find k dst)

-- As net/http builds a request's header: no key twice, and each in canonical form.
pub record IsReceived (h : Header) : Type 0 where
  pub distinct : IsMap h
  pub canonical_keys : All (λ e. canonical e.0 ≡ e.0) h

find_empty : (k : Str) → find {V = List Str} k [] ≡ none
unfolding find
find_empty k = refl

-- One round of `copyHeaders`.
copied : Str → List Str → Header → Header
copied j vs dst = if hop_by_hop j then dst else add_values j vs dst

copy_headers-cons :
    (dst : Header) (j : Str) (vs : List Str) (src : Header)
    → copy_headers dst ((j, vs) ∷ src) ≡ copy_headers (copied j vs dst) src
unfolding copy_headers copied
copy_headers-cons dst j vs src = refl

find-copied :
    (j : Str) (vs : List Str) (dst : Header)
    → canonical j ≡ j
    → find j (copied j vs dst) ≡ (if hop_by_hop j then find j dst else appended (find j dst) vs)
unfolding copied
find-copied j vs dst same = ground (arith, find-add_values j same vs dst)

find-copied_ne :
    (j k : Str) (vs : List Str) (dst : Header)
    → canonical j ≡ j
    → j ≢ k
    → find k (copied j vs dst) ≡ find k dst
unfolding copied
find-copied_ne j k vs dst same n = ground (arith, find-add_values_ne j same k vs dst n)

-- What the loop adds to a key.
abbrev gained : Str → Option (List Str) → Option (List Str) → Option (List Str)
gained k none have = have
gained k (some vs) have = if hop_by_hop k then have else appended have vs

find_here : (j k : Str) (vs : List Str) (src : Header) → j ≡ k → find k ((j, vs) ∷ src) ≡ some vs
unfolding find
find_here j k vs src e = if_pos (str_dec j k) e (some vs) (find k src)

find_there :
    (j k : Str) (vs : List Str) (src : Header) → j ≢ k → find k ((j, vs) ∷ src) ≡ find k src
unfolding find
find_there j k vs src n = if_neg (str_dec j k) n (some vs) (find k src)

find-copy_headers :
    (k : Str) (dst src : Header)
    → IsMap src
    → All (λ e. canonical e.0 ≡ e.0) src
    → find k (copy_headers dst src) ≡ gained k (find k src) (find k dst)
find-copy_headers k dst [] d c = unfold copy_headers find in refl
find-copy_headers k dst ((j, vs) ∷ src) d c =
    let rest =
      ap (find k) (copy_headers-cons dst j vs src)
      ∙ find-copy_headers k (copied j vs dst) src d.1 c.1 in
    elim (str_dec j k) [
      | yes e ↦
          rest
          ∙ ap (λ o. gained k o (find k (copied j vs dst))) (subst (λ x. find x src ≡ none) e d.0)
          ∙ subst
              (λ x.
                find x (copied j vs dst)
                ≡ (if hop_by_hop x then find x dst else appended (find x dst) vs))
              e (find-copied j vs dst c.0)
          ∙ sym (ap (λ o. gained k o (find k dst)) (find_here j k vs src e))
      | no n ↦
          rest
          ∙ ap (gained k (find k src)) (find-copied_ne j k vs dst c.0 n)
          ∙ sym (ap (λ o. gained k o (find k dst)) (find_there j k vs src n))
    ]

appended_values : (vs : List Str) → values_of (appended none vs) ≡ vs
appended_values [] = refl
appended_values (v ∷ vs) = ap values_of (appended-some (v ∷ []) vs)

gained_values :
    (k : Str) (o : Option (List Str))
    → values_of (gained k o none) ≡ (if hop_by_hop k then [] else values_of o)
gained_values k none = ground arith
gained_values k (some vs) = ground (arith, appended_values vs)

-- The request to an origin carries exactly the headers of the client's request that are not
-- hop-by-hop, each with all its values in order, if no key of the client's headers stands twice and
-- all are in canonical form, as net/http builds them.
pub copy_headers-forwards :
    (h : Header) (k : Str)
    → IsReceived h
    → values_of (find k (copy_headers [] h)) ≡ (if hop_by_hop k then [] else values_of (find k h))
copy_headers-forwards h k received =
    ap values_of (find-copy_headers k [] h received.distinct received.canonical_keys)
    ∙ ap (λ o. values_of (gained k (find k h) o)) (find_empty k)
    ∙ gained_values k (find k h)
