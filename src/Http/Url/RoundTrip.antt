-- ===== src/Http/Url/RoundTrip.antt =====
-- A URL written out of its parts is split into these parts.
use hulatang_io.Base.{
  ℕ, ◌≡◌, ◌≢◌, refl, ap₂, ◌∙◌, inl, inr, [], ◌∷◌, ◌++◌, true, false, Option, none, some, all_of,
  length, drop, arith, Text, starts_with, Lacks, Lacks-append, find-none, find-append,
  find_last-none, find_last-append, before-append, after-append, take-append, drop-append,
  append-nil,
}
use hulatang_io.Http.Url.{
  Url, no_parts, is_hostname_char, check_hostname, is_digit, all_of_number, try_port, try_host_port,
  split_host_port, split_path, host_and_port, split, split_rest, cut_ref, cut_query,
}
use hulatang_io.Http.Url.Delimiters.{Lacks-all_of, StartsTail, first_delimiter-append}

pub record Parts : Type 0 where
  pub protocol : Text
  pub host : Text
  pub port : Option Text
  pub path : Text
  pub query : Option Text
  pub ref : Option Text

-- the text behind its mark, where there is one
abbrev pub marked : ℕ → Option Text → Text
marked c none = []
marked c (some xs) = c ∷ xs

abbrev pub text_or_empty : Option Text → Text
text_or_empty none = []
text_or_empty (some xs) = xs

abbrev pub render_path : Parts → Text
render_path p = (p.path ++ marked b'?' p.query) ++ marked b'#' p.ref

-- <protocol>://<host>:<port>/<path>?<query>#<ref>
abbrev pub render : Parts → Text
render p = p.protocol ++ (b':' ∷ b'/' ∷ b'/' ∷ ((p.host ++ marked b':' p.port) ++ render_path p))

abbrev pub Every : (Text → Type 0) → Option Text → Type 0
Every P none = Unit {0}
Every P (some xs) = P xs

pub record IsRegular (p : Parts) : Type 0 where
  pub protocol_lacks : Lacks b':' p.protocol
  pub host_chars : check_hostname p.host ≡ true
  pub port_digits : Every (λ q. try_port q ≡ true) p.port
  pub path_start : StartsTail p.path
  pub path_lacks : Lacks b'?' p.path × Lacks b'#' p.path
  pub query_lacks : Every (λ q. Lacks b'#' q) p.query
  pub ref_lacks : Every (λ q. Lacks b'#' q) p.ref

abbrev pub parts_url : Parts → Url
parts_url p = record {
  host = p.host;
  port = text_or_empty p.port;
  protocol = p.protocol;
  path = p.path;
  query = text_or_empty p.query;
  ref = text_or_empty p.ref;
}

cut_ref_lem :
    (xs : Text) (r : Option Text)
    → Lacks b'#' xs
    → Every (λ q. Lacks b'#' q) r
    → cut_ref (xs ++ marked b'#' r) ≡ (xs, text_or_empty r)
unfolding cut_ref
cut_ref_lem xs none h k = rw append-nil (rw (find_last-none b'#' xs h, cut_ref))
cut_ref_lem xs (some r) h k =
    rw (find_last-append b'#' xs r k, cut_ref)
      (ap₂ (λ s t. (s, t)) (before-append b'#' xs r) (after-append b'#' xs r))

cut_query_lem :
    (xs : Text) (q : Option Text)
    → Lacks b'?' xs
    → cut_query (xs ++ marked b'?' q) ≡ (xs, text_or_empty q)
unfolding cut_query
cut_query_lem xs none h = rw append-nil (rw (find-none b'?' xs h, cut_query))
cut_query_lem xs (some q) h =
    rw (find-append b'?' xs q h, cut_query)
      (ap₂ (λ s t. (s, t)) (before-append b'?' xs q) (after-append b'?' xs q))

Lacks-marked : (c d : ℕ) (o : Option Text) → d ≢ c → Every (λ q. Lacks c q) o → Lacks c (marked d o)
Lacks-marked c d none h k = tt
Lacks-marked c d (some q) h k = (h, k)

split_path-render :
    (p : Parts) (u : Url)
    → IsRegular p
    → split_path u (render_path p)
      ≡ record u { path = p.path; query = text_or_empty p.query; ref = text_or_empty p.ref }
unfolding split_path
split_path-render p u v = rw (
  cut_ref_lem (p.path ++ marked b'?' p.query) p.ref
      (Lacks-append b'#' p.path _ v.path_lacks.1
        (Lacks-marked b'#' b'?' p.query (omega arith) v.query_lacks))
      v.ref_lacks,
  cut_query_lem p.path p.query v.path_lacks.0,
)

-- A character that no host or port has.
host-Lacks : (c : ℕ) (p : Parts) → IsRegular p → is_hostname_char c ≡ false → Lacks c p.host
unfolding check_hostname
host-Lacks c p v h = Lacks-all_of is_hostname_char c p.host h v.host_chars

port_digits_all : (q : Text) → try_port q ≡ true → all_of is_digit q ≡ true
unfolding try_port all_of_number
port_digits_all q h = ground arith

host_port-Lacks :
    (c : ℕ) (p : Parts)
    → IsRegular p
    → is_hostname_char c ≡ false
    → is_digit c ≡ false
    → b':' ≢ c
    → Lacks c (p.host ++ marked b':' p.port)
host_port-Lacks c p v h d e =
    Lacks-append c p.host _ (host-Lacks c p v h)
      (Lacks-marked c b':' p.port e (digits p.port v.port_digits))
  where
    digits : (o : Option Text) → Every (λ q. try_port q ≡ true) o → Every (λ q. Lacks c q) o
    digits none k = tt
    digits (some q) k = Lacks-all_of is_digit c q d (port_digits_all q k)

render_path-StartsTail : (p : Parts) → IsRegular p → StartsTail (render_path p)
render_path-StartsTail p v = starts p.path p.query p.ref v.path_start
  where
    starts :
        (path : Text) (query ref : Option Text)
        → StartsTail path
        → StartsTail ((path ++ marked b'?' query) ++ marked b'#' ref)
    starts [] none none h = tt
    starts [] none (some r) h = inr (inr refl)
    starts [] (some q) ref h = inr (inl refl)
    starts (x ∷ xs) query ref h = h

split_host_port-append :
    (xs tail : Text)
    → Lacks b'/' xs
    → Lacks b'?' xs
    → Lacks b'#' xs
    → StartsTail tail
    → split_host_port (xs ++ tail) ≡ host_and_port xs tail
unfolding split_host_port
split_host_port-append xs [] p q r h = rw (first_delimiter-append xs [] p q r h, append-nil)
split_host_port-append xs (y ∷ ys) p q r h =
    rw (first_delimiter-append xs (y ∷ ys) p q r h)
      (rw (take-append (length xs) xs (y ∷ ys) refl, drop-append (length xs) xs (y ∷ ys) refl))

host_and_port_lem :
    (p : Parts) (tail : Text)
    → IsRegular p
    → host_and_port (p.host ++ marked b':' p.port) tail ≡ some (p.host, text_or_empty p.port, tail)
unfolding host_and_port
host_and_port_lem p tail v = lemma p.port v.port_digits
  where
    usable :
        (q : Text)
        → try_port q ≡ true
        → try_host_port (p.host ++ b':' ∷ q) (some (length p.host)) ≡ true
    usable q k =
        unfold try_host_port in
        rw (after-append b':' p.host q, before-append b':' p.host q, k, v.host_chars)

    lemma :
        (o : Option Text)
        → Every (λ q. try_port q ≡ true) o
        → host_and_port (p.host ++ marked b':' o) tail ≡ some (p.host, text_or_empty o, tail)
    lemma none k = rw append-nil (
        unfold host_and_port is_hostname_char in
        rw (find_last-none b':' p.host (host-Lacks b':' p v refl), host_and_port))
    lemma (some q) k =
        rw
          (
            find_last-append b':' p.host q
                (Lacks-all_of is_digit b':' q (unfold is_digit in refl) (port_digits_all q k)),
            host_and_port,
          )
          (rw (usable q k) (
            ap₂ (λ s t. some (s, t, tail)) (before-append b':' p.host q)
              (after-append b':' p.host q)))

-- What is no port is split as a protocol and the rest.
split-colon :
    (xs ys : Text)
    → Lacks b':' xs
    → split (xs ++ b':' ∷ b'/' ∷ ys) ≡ split_rest (record no_parts { protocol = xs }) (b'/' ∷ ys)
unfolding split try_host_port try_port all_of_number is_digit all_of
split-colon xs ys h =
    rw (find-append b':' xs (b'/' ∷ ys) h)
      (rw (before-append b':' xs (b'/' ∷ ys), after-append b':' xs (b'/' ∷ ys)))

-- A URL that is written out of regular parts is split into exactly these parts: a protocol with no
-- colon, a host of host name characters, a port of digits, a path that is empty or starts with a
-- delimiter and has no '?' and no '#', and a query and a reference with no '#'. The port, the query
-- and the reference may be absent.
pub split-render : (p : Parts) → IsRegular p → split (render p) ≡ parts_url p
unfolding split_rest starts_with drop
split-render p v =
    split-colon p.protocol _ v.protocol_lacks
    ∙ rw
        (
          split_host_port-append (p.host ++ marked b':' p.port) (render_path p)
              (unfold is_hostname_char is_digit in host_port-Lacks b'/' p v refl refl (omega arith))
              (unfold is_hostname_char is_digit in host_port-Lacks b'?' p v refl refl (omega arith))
              (unfold is_hostname_char is_digit in host_port-Lacks b'#' p v refl refl (omega arith))
              (render_path-StartsTail p v),
          host_and_port_lem p (render_path p) v,
        )
        (split_path-render p _ v)

-- A text of host name characters, a colon and digits, with no protocol before them, is taken for a
-- host and a port, and no part of it is kept: host and port stay empty.
pub split-host_port :
    (host port : Text)
    → check_hostname host ≡ true
    → try_port port ≡ true
    → split (host ++ b':' ∷ port) ≡ no_parts
unfolding split try_host_port
split-host_port host port h k =
    rw (find-append b':' host port no_colon)
      (rw (after-append b':' host port, before-append b':' host port, h, k))
  where
    no_colon : Lacks b':' host
    no_colon =
        unfold check_hostname is_hostname_char in Lacks-all_of is_hostname_char b':' host refl h
