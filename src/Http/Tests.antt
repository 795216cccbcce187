-- ===== src/Http/Tests.antt =====
-- lib_src/transport/rns_http.c at concrete inputs.
use mathlib.Core.List.{Perm}
use yclib.Base.{ℕ, false, none, ◌++◌, ◌≡◌, refl, some, List, [], ◌∷◌, arith}
use yclib.Http.{url_create, header_range, split_key_value}
use yclib.Http.Info.{Info, Reading, info_init, info_done}
use yclib.Http.Info.Reader.{http_info_read}
use yclib.Http.Info.Ordering.{Field, items_of, Ordered}
use yclib.Http.Info.Headers.{IsField}
use yclib.Http.Info.Requests.{http_info_read-request}
use yclib.Http.Parts.{url_create-parts}
use yclib.Http.Fields.{header_range-decimal}

-- What an array of 8 bytes that are not set may hold
abbrev noise : List ℕ
noise = 49 ∷ 50 ∷ 0 ∷ 51 ∷ 0 ∷ 0 ∷ 52 ∷ 0 ∷ []

-- "http://ab:80/c?d"
abbrev address : List ℕ
address = 104 ∷ 116 ∷ 116 ∷ 112 ∷ 58 ∷ 47 ∷ 47 ∷ 97 ∷ 98 ∷ 58 ∷ 56 ∷ 48 ∷ 47 ∷ 99 ∷ 63 ∷ 100 ∷ []

url_create-parts_example :
    url_create [] noise address
    ≡ some (some (record { uri = 47 ∷ 99 ∷ []; addr = 97 ∷ 98 ∷ []; port = 80 }))
url_create-parts_example =
    url_create-parts (104 ∷ 116 ∷ 116 ∷ 112 ∷ 58 ∷ []) (97 ∷ 98 ∷ []) (56 ∷ 48 ∷ []) (99 ∷ [])
      (63 ∷ 100 ∷ []) noise (51 ∷ 0 ∷ 0 ∷ 52 ∷ 0 ∷ []) 0 (refl, (refl, (refl, (refl, (refl, tt)))))
      (refl, (refl, tt)) (refl, (refl, tt)) (omega arith) (refl, (refl, tt)) (omega arith) refl refl
      (omega arith) (refl, tt) refl

-- With a port of one figure the same array makes another one: the port 8 is read as 82.
noise_counts :
    url_create [] noise (47 ∷ 47 ∷ 97 ∷ 58 ∷ 56 ∷ 47 ∷ [])
    ≡ some (some (record { uri = 47 ∷ []; addr = 97 ∷ []; port = 82 }))
unfolding url_create
noise_counts = refl

-- "bytes=10-"
header_range-decimal_example :
    header_range [] (some (98 ∷ 61 ∷ 49 ∷ 48 ∷ 45 ∷ [])) 0 99 ≡ some (0, 10, 99)
header_range-decimal_example =
    header_range-decimal (98 ∷ []) (48 ∷ []) [] 49 0 99 (refl, tt) (refl, (refl, tt)) tt
      (omega arith) (omega arith)

-- "POST /a HTTP/1.1", a header "K: v" and an empty line
abbrev request_text : List ℕ
request_text =
    80 ∷ 79 ∷ 83 ∷ 84 ∷ 32 ∷ 47 ∷ 97 ∷ 32 ∷ 72 ∷ 84 ∷ 84 ∷ 80 ∷ 47 ∷ 49 ∷ 46 ∷ 49 ∷ 13 ∷ 10 ∷ 75
    ∷ 58 ∷ 32 ∷ 118 ∷ 13 ∷ 10 ∷ 13 ∷ 10 ∷ []

abbrev blank_info : Info
blank_info = record {
  state = info_init;
  code = 0;
  method = 0;
  uri = none;
  args = [];
  headers = [];
  chunk = false;
  chunksize = 0;
  total_size = 0;
  curr_size = 0;
  body_size = 0;
}

abbrev blank_reading : Reading
blank_reading = record {
  request = blank_info;
  response = blank_info;
  of_response = false;
  memory = [];
}

one_header :
    http_info_read 6 blank_reading (request_text ++ 0 ∷ []) 26
    ≡ some (
      26,
      record blank_reading {
        request = record blank_info {
          state = info_done;
          method = 1;
          uri = some (47 ∷ 97 ∷ []);
          headers = (some (75 ∷ []), 118 ∷ []) ∷ [];
        };
      },
    )
unfolding http_info_read split_key_value
one_header = refl

abbrev key_value : Field
key_value = record { initial = 75; name = []; blanks = 1; value = 118 ∷ [] }

key_value-IsField : IsField key_value
key_value-IsField = record {
  no_colon = (refl, tt);
  no_return = (refl, (refl, (refl, (refl, tt))));
  starts = refl;
  no_length = refl;
  no_coding = refl;
  no_blank = refl;
}

http_info_read-request_example :
    (kept : List Field) × (http_info_read 5 blank_reading (request_text ++ 0 ∷ []) 26
      ≡ some (
        26,
        record blank_reading {
          request = record blank_info {
            state = info_done;
            method = 1;
            uri = some (47 ∷ 97 ∷ []);
            headers = items_of kept;
          };
        },
      ))
    × Ordered kept
    × Perm kept (key_value ∷ [])
http_info_read-request_example =
    http_info_read-request 47 (97 ∷ []) (47 ∷ 49 ∷ 46 ∷ 49 ∷ []) key_value [] blank_info
      blank_reading []
      (
        refl,
        (
          refl,
          (
            refl,
            (
              refl,
              (
                refl,
                (
                  refl,
                  (
                    refl,
                    (
                      refl,
                      (
                        refl,
                        (
                          refl,
                          (
                            refl,
                            (
                              refl,
                              (
                                refl,
                                (
                                  refl,
                                  (
                                    refl,
                                    (
                                      refl,
                                      (
                                        refl,
                                        (
                                          refl,
                                          (
                                            refl,
                                            (
                                              refl,
                                              (refl, (refl, (refl, (refl, (refl, (refl, tt)))))),
                                            ),
                                          ),
                                        ),
                                      ),
                                    ),
                                  ),
                                ),
                              ),
                            ),
                          ),
                        ),
                      ),
                    ),
                  ),
                ),
              ),
            ),
          ),
        ),
      )
      (refl, (refl, (refl, (refl, (refl, (refl, (refl, (refl, (refl, (refl, (refl, tt)))))))))))
      (refl, (refl, (refl, (refl, (refl, (refl, (refl, (refl, (refl, (refl, (refl, tt)))))))))))
      (refl, (refl, tt)) (refl, (refl, tt)) (key_value-IsField, tt)
