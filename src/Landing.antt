-- ===== src/Landing.antt =====
-- Parts of the landing page: components/useful/EmailDeliverySimulator.tsx and
-- components/sections/CarouselPage.tsx.
pub mod Simulator
pub mod ServiceCarousel
