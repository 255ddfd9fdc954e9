-- ===== src/Settings/Built.antt =====
-- The settings field by field.
use counter_cruiser.Prelude.{◌≡◌, ap, ◌∙◌, sym, pos, Floats, ok, >>=-ok, ok_injective, arith}
use counter_cruiser.Settings.Fields.{ClientFields}
use counter_cruiser.Settings.Defs.{
  ClientSettings, filled, checked, given_zones, valid_jpeg_quality, valid_frame_skip, positive,
  in_unit, alert_config, validate_client,
}

module _ (F : Floats) where
  open F use {Float, of_int, div_int}

  -- Each field of the settings comes from the field given, its default and its validator alone.
  pub record Built (f : ClientFields Float) (s : ClientSettings Float) : Type 0 where
    pub server_host : s.server_host ≡ filled "localhost" f.server_host
    pub server_port : s.server_port ≡ filled (pos 8765) f.server_port
    pub camera_index : s.camera_index ≡ filled (pos 0) f.camera_index
    pub frame_width : s.frame_width ≡ filled (pos 640) f.frame_width
    pub frame_height : s.frame_height ≡ filled (pos 480) f.frame_height
    pub jpeg_quality : checked valid_jpeg_quality (pos 85) f.jpeg_quality ≡ ok s.jpeg_quality
    pub frame_skip : checked valid_frame_skip (pos 3) f.frame_skip ≡ ok s.frame_skip
    pub min_size_ratio :
        checked (in_unit F) (div_int (pos 1) (pos 4)) f.min_size_ratio ≡ ok s.min_size_ratio
    pub zones : given_zones f.zones ≡ ok s.zones
    pub alerts : alert_config F f.alerts ≡ ok s.alerts
    pub web_host : s.web_host ≡ filled "0.0.0.0" f.web_host
    pub web_port : s.web_port ≡ filled (pos 8080) f.web_port
    pub web_stream_fps :
        checked (positive F) (of_int (pos 5)) f.web_stream_fps ≡ ok s.web_stream_fps

  pub validate_client-Built :
      (f : ClientFields Float) (s : ClientSettings Float) → validate_client F f ≡ ok s → Built f s
  unfolding validate_client
  validate_client-Built f s h =
      let (quality, q, h1) = >>=-ok (checked valid_jpeg_quality (pos 85) f.jpeg_quality) _ s h in
      let (skip, k, h2) = >>=-ok (checked valid_frame_skip (pos 3) f.frame_skip) _ s h1 in
      let (ratio, r, h3) =
        >>=-ok (checked (in_unit F) (div_int (pos 1) (pos 4)) f.min_size_ratio) _ s h2 in
      let (zones, z, h4) = >>=-ok (given_zones f.zones) _ s h3 in
      let (alerts, a, h5) = >>=-ok (alert_config F f.alerts) _ s h4 in
      let (fps, p, h6) = >>=-ok (checked (positive F) (of_int (pos 5)) f.web_stream_fps) _ s h5 in
      let same = ok_injective h6 in
      record {
        server_host = sym (ap (λ t. t.server_host) same);
        server_port = sym (ap (λ t. t.server_port) same);
        camera_index = sym (ap (λ t. t.camera_index) same);
        frame_width = sym (ap (λ t. t.frame_width) same);
        frame_height = sym (ap (λ t. t.frame_height) same);
        jpeg_quality = q ∙ ap (λ t. ok t.jpeg_quality) same;
        frame_skip = k ∙ ap (λ t. ok t.frame_skip) same;
        min_size_ratio = r ∙ ap (λ t. ok t.min_size_ratio) same;
        zones = z ∙ ap (λ t. ok t.zones) same;
        alerts = a ∙ ap (λ t. ok t.alerts) same;
        web_host = sym (ap (λ t. t.web_host) same);
        web_port = sym (ap (λ t. t.web_port) same);
        web_stream_fps = p ∙ ap (λ t. ok t.web_stream_fps) same;
      }

  pub Built-validate_client :
      (f : ClientFields Float) (s : ClientSettings Float) → Built f s → validate_client F f ≡ ok s
  unfolding validate_client
  Built-validate_client f s b =
      rw (b.jpeg_quality, b.frame_skip, b.min_size_ratio, b.zones, b.alerts, b.web_stream_fps)
        (ground (arith, b))
