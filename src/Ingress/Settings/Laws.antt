-- ===== src/Ingress/Settings/Laws.antt =====
-- What createIngressConfig of nginx/configurator.go takes from each annotation.
use lbex.Prelude.{String, Bool, true, false, not, ◌&&◌, ◌≡◌, refl, ◌∙◌, ap, some, if◌then◌else◌}
use lbex.Prelude.Int.{ℤ}
use lbex.Prelude.Text.{atoi, parse_bool}
use lbex.Prelude.Dict.{Dict}
use lbex.Nginx.Context.{HttpContext}
use lbex.Ingress.{Reading, get_map_key_as_bool, get_map_key_as_int}
use lbex.Ingress.Settings.{replaced, with_hsts, create_ingress_config}
use lbex.Ingress.Settings.Values.{
  setting, is_readable, is_present, parts_by, bool-setting, int-setting, slice-setting,
  text-setting, reads, reads-bool, reads-int, counts-bool, counts-value,
}

-- The hsts annotations count if the first is there and all that are there can be read.
abbrev pub hsts_counts : Dict String → Bool
hsts_counts m =
    is_present m "nginx.org/hsts"
    && is_readable parse_bool m "nginx.org/hsts"
    && (is_readable atoi m "nginx.org/hsts-max-age"
        && is_readable parse_bool m "nginx.org/hsts-include-subdomains")

-- The settings of an ingress with the annotations `m`, from those of the Configurator.
abbrev pub merged : HttpContext → Dict String → HttpContext
merged config m = record config {
  server_tokens = setting parse_bool m "nginx.org/server-tokens" config.server_tokens;
  server_snippets = setting (parts_by b'\n') m "nginx.org/server-snippets" config.server_snippets;
  location_snippets =
      setting (parts_by b'\n') m "nginx.org/location-snippets" config.location_snippets;
  proxy_connect_timeout =
      setting some m "nginx.org/proxy-connect-timeout" config.proxy_connect_timeout;
  proxy_read_timeout = setting some m "nginx.org/proxy-read-timeout" config.proxy_read_timeout;
  proxy_hide_headers =
      setting (parts_by b',') m "nginx.org/proxy-hide-headers" config.proxy_hide_headers;
  proxy_pass_headers =
      setting (parts_by b',') m "nginx.org/proxy-pass-headers" config.proxy_pass_headers;
  client_max_body_size =
      setting some m "nginx.org/client-max-body-size" config.client_max_body_size;
  http2 = setting parse_bool m "nginx.org/http2" config.http2;
  redirect_to_https = setting parse_bool m "nginx.org/redirect-to-https" config.redirect_to_https;
  proxy_buffering = setting parse_bool m "nginx.org/proxy-buffering" config.proxy_buffering;
  hsts = if hsts_counts m then setting parse_bool m "nginx.org/hsts" config.hsts else config.hsts;
  hsts_max_age =
      if hsts_counts m
      then setting atoi m "nginx.org/hsts-max-age" config.hsts_max_age
      else config.hsts_max_age;
  hsts_include_subdomains =
      if hsts_counts m
      then setting parse_bool m "nginx.org/hsts-include-subdomains" config.hsts_include_subdomains
      else config.hsts_include_subdomains;
  proxy_buffers = setting some m "nginx.org/proxy-buffers" config.proxy_buffers;
  proxy_buffer_size = setting some m "nginx.org/proxy-buffer-size" config.proxy_buffer_size;
  proxy_max_temp_file_size =
      setting some m "nginx.org/proxy-max-temp-file-size" config.proxy_max_temp_file_size;
}

abbrev counts : Reading Bool → Reading ℤ → Reading Bool → Bool
counts hsts max_age include = hsts.1 && not hsts.2 && (reads max_age && reads include)

-- The block of the hsts annotations, on every branch.
with_hsts_lem :
    (hsts : Reading Bool) (max_age : Reading ℤ) (include : Reading Bool) (cfg : HttpContext)
    → with_hsts hsts max_age include cfg ≡ record cfg {
      hsts = if counts hsts max_age include then hsts.0 else cfg.hsts;
      hsts_max_age =
          if counts hsts max_age include
          then replaced max_age cfg.hsts_max_age
          else cfg.hsts_max_age;
      hsts_include_subdomains =
          if counts hsts max_age include
          then replaced include cfg.hsts_include_subdomains
          else cfg.hsts_include_subdomains;
    }
unfolding with_hsts
with_hsts_lem (h, false, e) m i cfg = refl
with_hsts_lem (h, true, true) m i cfg = refl
with_hsts_lem (h, true, false) (a, true, true) i cfg = refl
with_hsts_lem (h, true, false) (a, true, false) (s, true, true) cfg = refl
with_hsts_lem (h, true, false) (a, true, false) (s, true, false) cfg = refl
with_hsts_lem (h, true, false) (a, true, false) (s, false, e) cfg = refl
with_hsts_lem (h, true, false) (a, false, f) (s, true, true) cfg = refl
with_hsts_lem (h, true, false) (a, false, f) (s, true, false) cfg = refl
with_hsts_lem (h, true, false) (a, false, f) (s, false, e) cfg = refl

readings-count :
    (m : Dict String)
    → counts
        (get_map_key_as_bool m "nginx.org/hsts")
        (get_map_key_as_int m "nginx.org/hsts-max-age")
        (get_map_key_as_bool m "nginx.org/hsts-include-subdomains")
      ≡ hsts_counts m
readings-count m = counts-bool m "nginx.org/hsts" _ ∙ simp (reads-bool, reads-int)

hsts-setting :
    (m : Dict String) (config : HttpContext)
    → with_hsts
        (get_map_key_as_bool m "nginx.org/hsts")
        (get_map_key_as_int m "nginx.org/hsts-max-age")
        (get_map_key_as_bool m "nginx.org/hsts-include-subdomains")
        config
      ≡ record config {
        hsts =
            if hsts_counts m
            then setting parse_bool m "nginx.org/hsts" config.hsts
            else config.hsts;
        hsts_max_age =
            if hsts_counts m
            then setting atoi m "nginx.org/hsts-max-age" config.hsts_max_age
            else config.hsts_max_age;
        hsts_include_subdomains =
            if hsts_counts m
            then setting parse_bool m "nginx.org/hsts-include-subdomains"
                config.hsts_include_subdomains
            else config.hsts_include_subdomains;
      }
hsts-setting m config =
    with_hsts_lem _ _ _ config
    ∙ simp (readings-count, int-setting, bool-setting)
        (ap
          (λ value. record config {
            hsts = value;
            hsts_max_age =
                if hsts_counts m
                then setting atoi m "nginx.org/hsts-max-age" config.hsts_max_age
                else config.hsts_max_age;
            hsts_include_subdomains =
                if hsts_counts m
                then setting parse_bool m "nginx.org/hsts-include-subdomains"
                    config.hsts_include_subdomains
                else config.hsts_include_subdomains;
          })
          (counts-value m "nginx.org/hsts" _ config.hsts))

-- Each setting of an ingress is read from its own annotation, where that is there and can be read,
-- and is the Configurator's otherwise; the three hsts annotations count together, or none of them;
-- and no annotation touches any other setting.
pub create_ingress_config-merged :
    (config : HttpContext) (m : Dict String) → create_ingress_config config m ≡ merged config m
unfolding create_ingress_config
create_ingress_config-merged config m =
    simp (bool-setting, slice-setting, text-setting, hsts-setting)
