-- ===== src/Http/Parts.antt =====
-- The functions of lib_src/transport/rns_http.c and lib_src/util/rns_memory.c on texts that are put together from parts.
use mathlib.Core.List.{append-nil}
use yclib.Base.{
  ℕ, zero, suc, ◌+◌, ◌-◌, ◌*◌, ◌^◌, ◌<◌, ◌≤◌, ◌≡◌, refl, ap, sym, ◌∙◌, true, false, ◌&&◌, ◌||◌,
  none, some, List, [], ◌∷◌, ◌++◌, ltb, leb, ◌==◌, ◌>>=◌, length, take, drop, arith, drop-drop,
  take-append_length, drop-append_length,
}
use yclib.Network.Address.{is_digit}
use yclib.Http.Text.{
  strchr, strstr, skip_space, is_space, behind_space, as_int, digits, atoi, decimal, AllDigits,
  Lacks,
}
use yclib.Http.{host_end, read_port, uri_of, with_uri, with_host, url_create}

-- The first `c` stands behind a text without it.
pub strchr-Lacks :
    (c : ℕ) (text behind : List ℕ)
    → Lacks c text
    → strchr c (text ++ c ∷ behind) ≡ some (length text)
strchr-Lacks c [] behind lacks = let same : (c == c) ≡ true = ground arith in rw same refl
strchr-Lacks c (b ∷ text) behind lacks = rw (lacks.0, strchr-Lacks c text behind lacks.1) refl

strchr-none : (c : ℕ) (text : List ℕ) → Lacks c text → strchr c text ≡ none
strchr-none c [] lacks = refl
strchr-none c (b ∷ text) lacks = rw (lacks.0, strchr-none c text lacks.1) refl

-- The two slashes stand behind a scheme without a slash.
strstr-slashes :
    (scheme behind : List ℕ)
    → Lacks 47 scheme
    → strstr (47 ∷ 47 ∷ []) (scheme ++ 47 ∷ 47 ∷ behind) ≡ some (length scheme)
strstr-slashes [] behind lacks = refl
strstr-slashes (b ∷ scheme) behind lacks =
    let other : (47 == b) ≡ false = ground (arith, lacks.0) in
    rw (other, strstr-slashes scheme behind lacks.1) refl

digits-decimal :
    (n : ℕ) (figures : List ℕ) (b : ℕ) (behind : List ℕ)
    → AllDigits figures
    → is_digit b ≡ false
    → digits n (figures ++ b ∷ behind) ≡ some (decimal n figures)
digits-decimal n [] b behind all ends = rw ends refl
digits-decimal n (a ∷ figures) b behind all ends =
    rw all.0 (digits-decimal (n * 10 + (a - 48)) figures b behind all.1 ends)

pub atoi-decimal :
    (a : ℕ) (figures : List ℕ) (b : ℕ) (behind : List ℕ)
    → AllDigits (a ∷ figures)
    → is_digit b ≡ false
    → decimal 0 (a ∷ figures) < 2 ^ 31
    → atoi ((a ∷ figures) ++ b ∷ behind) ≡ some (decimal 0 (a ∷ figures))
atoi-decimal a figures b behind all ends small =
    let figure : (leb 48 a && leb a 57) ≡ true = all.0 in
    let plain : is_space a ≡ false = ground arith in
    let minus : (a == 45) ≡ false = ground arith in
    let plus : (a == 43) ≡ false = ground arith in
    let fits : ltb (decimal 0 (a ∷ figures)) (2 ^ 31) ≡ true = ground arith in
    let value = digits-decimal 0 (a ∷ figures) b behind all ends in
    let bytes = (a ∷ figures) ++ b ∷ behind in
    let same : skip_space bytes ≡ bytes = rw plain refl in
    let number : behind_space bytes ≡ (digits 0 bytes >>= as_int false) =
      rw (behind_space, minus, plus) refl in
    ap behind_space same ∙ number ∙ ap (λ v. v >>= as_int false) value ∙ rw fits refl

host_end-Lacks :
    (host : List ℕ) (b : ℕ) (behind : List ℕ)
    → Lacks 58 host
    → Lacks 47 host
    → (b == 58 || b == 47) ≡ true
    → host_end (host ++ b ∷ behind) ≡ some (length host)
host_end-Lacks [] b behind colon slash ends = rw ends refl
host_end-Lacks (a ∷ host) b behind colon slash ends =
    rw (colon.0, slash.0, host_end-Lacks host b behind colon.1 slash.1 ends) refl

-- What follows the path of a page: nothing, or its arguments
abbrev pub IsTail : List ℕ → Type 0
IsTail [] = Unit
IsTail (b ∷ args) = b ≡ 63

uri_of-path : (path tail : List ℕ) → Lacks 63 path → IsTail tail → uri_of (path ++ tail) ≡ path
uri_of-path path [] lacks is =
    let whole = append-nil path in
    let missing : strchr 63 (path ++ []) ≡ none =
      ap (strchr 63) whole ∙ strchr-none 63 path lacks in
    rw (uri_of, missing) whole
uri_of-path path (b ∷ args) lacks is =
    let there : strchr 63 (path ++ b ∷ args) ≡ some (length path) =
      ap (λ c. strchr 63 (path ++ c ∷ args)) is ∙ strchr-Lacks 63 path args lacks in
    rw (uri_of, there) (take-append_length path (b ∷ args))

-- The port, or 80 where there is none, and what follows
abbrev pub port_text : List ℕ → List ℕ
port_text [] = []
port_text (a ∷ figures) = 58 ∷ a ∷ figures

abbrev pub port_of : List ℕ → ℕ
port_of [] = 80
port_of (a ∷ figures) = decimal 0 (a ∷ figures)

AllDigits-Lacks : (figures : List ℕ) → AllDigits figures → Lacks 47 figures
AllDigits-Lacks [] all = tt
AllDigits-Lacks (a ∷ figures) all =
    let figure : (leb 48 a && leb a 57) ≡ true = all.0 in
    (ground arith, AllDigits-Lacks figures all.1)

-- The byte behind a text that is shorter than what is taken
take-within :
    (m : ℕ) (text : List ℕ) (end : ℕ) (more : List ℕ)
    → length text ≤ m
    → take (suc m) (text ++ end ∷ more) ≡ text ++ end ∷ take (m - length text) more
take-within m [] end more short =
    let all : m ≡ m - 0 = omega arith in ap (λ k. end ∷ take k more) all
take-within zero (a ∷ text) end more short = absurd (omega arith)
take-within (suc m) (a ∷ text) end more short =
    let less : m - length text ≡ suc m - suc (length text) = omega arith in
    ap (λ t. a ∷ t) (take-within m text end more (omega arith))
    ∙ ap (λ k. a ∷ (text ++ end ∷ take k more)) less

read_port-port_of :
    (noise figures : List ℕ) (end : ℕ) (more path : List ℕ)
    → AllDigits figures
    → length figures < 8
    → drop (length figures) noise ≡ end ∷ more
    → is_digit end ≡ false
    → port_of figures < 2 ^ 31
    → read_port noise (port_text figures ++ 47 ∷ path) ≡ some (some (port_of figures, 47 ∷ path))
read_port-port_of noise [] end more path all short behind ends small = refl
read_port-port_of noise (a ∷ figures) end more path all short behind ends small =
    let text = a ∷ figures in
    let n = length text in
    let there = strchr-Lacks 47 text path (AllDigits-Lacks text all) in
    let fits : ltb 8 n ≡ false = ground arith in
    let buffer : take 8 (take n (text ++ 47 ∷ path) ++ drop n noise)
        ≡ text ++ end ∷ take (7 - n) more =
      ap (λ t. take 8 (t ++ drop n noise)) (take-append_length text (47 ∷ path))
      ∙ ap (λ t. take 8 (text ++ t)) behind
      ∙ take-within 7 text end more (omega arith) in
    let port = ap atoi buffer ∙ atoi-decimal a figures end (take (7 - n) more) all ends small in
    rw (read_port, there, fits, port)
      (ap (λ t. some (some (decimal 0 text, t))) (drop-append_length text (47 ∷ path)))

host_end-port :
    (host figures behind : List ℕ)
    → Lacks 58 host
    → Lacks 47 host
    → host_end (host ++ (port_text figures ++ 47 ∷ behind)) ≡ some (length host)
host_end-port host [] behind colon slash = host_end-Lacks host 47 behind colon slash refl
host_end-port host (a ∷ figures) behind colon slash =
    host_end-Lacks host 58 (a ∷ (figures ++ 47 ∷ behind)) colon slash refl

-- An address of a page that is put together from a scheme without a slash, two slashes, a host of at most
-- 128 bytes, a port of at most seven figures or none, a path and what may follow it: with memory for
-- all, `rns_http_url_create`
-- gives the host, the path and the port, if what the array for the port holds behind the figures does
-- not start with a figure.
pub url_create-parts :
    (scheme host figures path tail noise more : List ℕ) (end : ℕ)
    → Lacks 47 scheme
    → Lacks 58 host
    → Lacks 47 host
    → length host ≤ 128
    → AllDigits figures
    → length figures < 8
    → drop (length figures) noise ≡ end ∷ more
    → is_digit end ≡ false
    → port_of figures < 2 ^ 31
    → Lacks 63 path
    → IsTail tail
    → url_create [] noise (scheme ++ 47 ∷ 47 ∷ (host ++ (port_text figures ++ 47 ∷ (path ++ tail))))
      ≡ some (some (record { uri = 47 ∷ path; addr = host; port = port_of figures }))
unfolding url_create
url_create-parts scheme host figures path tail noise more end no_slash colon slash short all few
      behind ends small no_query is =
    let rest = port_text figures ++ 47 ∷ (path ++ tail) in
    let text = host ++ rest in
    let found = strstr-slashes scheme text no_slash in
    let first : drop (length scheme + 2) (scheme ++ 47 ∷ 47 ∷ text) ≡ text =
      sym (drop-drop (length scheme) 2 (scheme ++ 47 ∷ 47 ∷ text))
      ∙ ap (drop 2) (drop-append_length scheme (47 ∷ 47 ∷ text)) in
    let stops : host_end text ≡ some (length host) =
      host_end-port host figures (path ++ tail) colon slash in
    let fits : ltb 128 (length host) ≡ false = ground arith in
    let port = read_port-port_of noise figures end more (path ++ tail) all few behind ends small in
    let uri = uri_of-path (47 ∷ path) tail (refl, no_query) is in
    let with_rest : with_host [] noise text (length host)
        ≡ some (some (record { uri = 47 ∷ path; addr = host; port = port_of figures })) =
      rw (with_host, fits)
        (ap (λ t. read_port noise t >>= λ r. some (with_uri [] (take (length host) text) r))
            (drop-append_length host rest)
          ∙ ap (λ r. r >>= λ q. some (with_uri [] (take (length host) text) q)) port
          ∙ ap
              (λ t.
                some (
                  some
                    (record { uri = t; addr = take (length host) text; port = port_of figures })))
              uri
          ∙ ap (λ t. some (some (record { uri = 47 ∷ path; addr = t; port = port_of figures })))
              (take-append_length host rest)) in
    rw (url_create, found)
      (ap (λ t. host_end t >>= with_host [] noise t) first
        ∙ ap (λ m. m >>= with_host [] noise text) stops
        ∙ with_rest)
