-- ===== src/Ingress/Settings.antt =====
-- nginx/configurator.go, createIngressConfig: the settings of an Ingress, the Configurator's where an
-- annotation does not replace them.
pub mod Laws
pub mod Values
use lbex.Prelude.{String, Bool, true, false, ◌&&◌, ◌||◌, Option, none, some, List, if◌then◌else◌}
use lbex.Prelude.Int.{ℤ}
use lbex.Prelude.Dict.{Dict, get}
use lbex.Nginx.Context.{HttpContext}
use lbex.Ingress.{
  Ingress, Reading, get_map_key_as_bool, get_map_key_as_int, get_map_key_as_string_slice,
}

-- `if x, exists, err := ...; exists`: the new value where there is one without an error, else `old`
abbrev pub replaced : {A : Type 0} → Reading A → A → A
replaced (value, true, false) old = value
replaced (value, true, true) old = old
replaced (value, false, err) old = old

-- `if x, exists := m[key]; exists`
abbrev pub or_old : Option String → String → String
or_old none old = old
or_old (some value) old = value

-- the block of the three hsts annotations, which are read together
unfoldable pub with_hsts : Reading Bool → Reading ℤ → Reading Bool → HttpContext → HttpContext
with_hsts (hsts, exists_hsts, err) (max_age, exists_ma, err_ma) (include, exists_is, err_is) cfg =
    let parsing_errors = exists_ma && err_ma || exists_is && err_is in
    if exists_hsts
    then if err then cfg else if parsing_errors then cfg else record cfg {
      hsts = hsts;
      hsts_max_age = if exists_ma then max_age else cfg.hsts_max_age;
      hsts_include_subdomains = if exists_is then include else cfg.hsts_include_subdomains;
    }
    else cfg

-- createIngressConfig, on the Configurator's context
unfoldable pub create_ingress_config : HttpContext → Dict String → HttpContext
unfolding get get_map_key_as_bool get_map_key_as_int get_map_key_as_string_slice with_hsts
create_ingress_config config m =
    let c1 = record config {
      server_tokens =
          replaced (get_map_key_as_bool m "nginx.org/server-tokens") config.server_tokens;
    } in
    let c2 = record c1 {
      server_snippets =
          replaced (get_map_key_as_string_slice m "nginx.org/server-snippets" b'\n')
            c1.server_snippets;
    } in
    let c3 = record c2 {
      location_snippets =
          replaced (get_map_key_as_string_slice m "nginx.org/location-snippets" b'\n')
            c2.location_snippets;
    } in
    let c4 = record c3 {
      proxy_connect_timeout =
          or_old (get "nginx.org/proxy-connect-timeout" m) c3.proxy_connect_timeout;
      proxy_read_timeout = or_old (get "nginx.org/proxy-read-timeout" m) c3.proxy_read_timeout;
    } in
    let c5 = record c4 {
      proxy_hide_headers =
          replaced (get_map_key_as_string_slice m "nginx.org/proxy-hide-headers" b',')
            c4.proxy_hide_headers;
    } in
    let c6 = record c5 {
      proxy_pass_headers =
          replaced (get_map_key_as_string_slice m "nginx.org/proxy-pass-headers" b',')
            c5.proxy_pass_headers;
      client_max_body_size =
          or_old (get "nginx.org/client-max-body-size" m) c5.client_max_body_size;
    } in
    let c7 = record c6 {
      http2 = replaced (get_map_key_as_bool m "nginx.org/http2") c6.http2;
      redirect_to_https =
          replaced (get_map_key_as_bool m "nginx.org/redirect-to-https") c6.redirect_to_https;
      proxy_buffering =
          replaced (get_map_key_as_bool m "nginx.org/proxy-buffering") c6.proxy_buffering;
    } in
    let c8 =
      with_hsts (get_map_key_as_bool m "nginx.org/hsts")
        (get_map_key_as_int m "nginx.org/hsts-max-age")
        (get_map_key_as_bool m "nginx.org/hsts-include-subdomains") c7 in
    record c8 {
      proxy_buffers = or_old (get "nginx.org/proxy-buffers" m) c8.proxy_buffers;
      proxy_buffer_size = or_old (get "nginx.org/proxy-buffer-size" m) c8.proxy_buffer_size;
      proxy_max_temp_file_size =
          or_old (get "nginx.org/proxy-max-temp-file-size" m) c8.proxy_max_temp_file_size;
    }
