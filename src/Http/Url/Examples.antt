-- ===== src/Http/Url/Examples.antt =====
-- The URLs of hulatang/http/tests/URL_test.cpp.
use hulatang_io.Base.{
  ◌≡◌, refl, inl, some, take, drop, all_of, find, find_last, starts_with, codes, arith,
}
use hulatang_io.Http.Url.{
  no_parts, is_hostname_char, check_hostname, is_digit, all_of_number, check_ip, try_port,
  try_host_port, first_delimiter, host_and_port, split_host_port, cut_ref, cut_query, split_path,
  split_rest, split,
}
use hulatang_io.Http.Url.RoundTrip.{Parts, IsRegular, render, parts_url, split-render}

abbrev baidu : Parts
baidu = record {
  protocol = codes "http";
  host = codes "www.baidu.com";
  port = some (codes "80");
  path = codes "/index";
  query = some (codes "id=123");
  ref = some (codes "1234");
}

render-baidu : render baidu ≡ codes "http://www.baidu.com:80/index?id=123#1234"
render-baidu = refl

baidu-IsRegular : IsRegular baidu
unfolding check_hostname is_hostname_char try_port all_of_number is_digit all_of
baidu-IsRegular = record {
  protocol_lacks = omega arith;
  host_chars = refl;
  port_digits = refl;
  path_start = inl refl;
  path_lacks = omega arith;
  query_lacks = omega arith;
  ref_lacks = omega arith;
}

split-render_example : split (render baidu) ≡ parts_url baidu
split-render_example = split-render baidu baidu-IsRegular

-- A v6 address is read with its brackets where a port follows it.
split_v6 : split (codes "http://[fe80::822a]:1234/keys") ≡ record no_parts {
  protocol = codes "http";
  host = codes "[fe80::822a]";
  port = codes "1234";
  path = codes "/keys";
}
unfolding split try_host_port try_port all_of_number is_digit check_hostname is_hostname_char
    check_ip split_rest starts_with split_host_port first_delimiter host_and_port split_path cut_ref
    cut_query find find_last take drop all_of
split_v6 = refl

-- With no port, the last colon of the address is taken for the port's, and the parts are lost.
split_v6_without_port :
    split (codes "http://[fe80::822a]/keys") ≡ record no_parts { protocol = codes "http" }
unfolding split try_host_port try_port all_of_number is_digit check_hostname is_hostname_char
    check_ip split_rest starts_with split_host_port first_delimiter host_and_port split_path cut_ref
    cut_query find find_last take drop all_of
split_v6_without_port = refl
